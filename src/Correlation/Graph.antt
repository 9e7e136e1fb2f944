-- ===== src/Correlation/Graph.antt =====
-- correlation/graph.py: nodes and edges, and the search for a path between two nodes.
use recoverx_cli.Prelude.{
  ℕ, zero, suc, ◌+◌, ◌-◌, ◌*◌, ◌/◌, ◌%◌, ◌^◌, ◌≤◌, ◌<◌, min, max, ◌≡◌, refl, sym, ap, ◌∙◌, subst,
  fun_ext, ◌≢◌, ◌↔◌, ◌⊎◌, inl, inr, Bool, true, false, not, ◌&&◌, ◌||◌, Option, none, some, List,
  [], ◌∷◌, ◌++◌, map, append-nil, append_assoc, arith, ltb, leb, ◌==◌, if◌then◌else◌, ltb→lt,
  lt→ltb, leb→le, ==_iff, Bool-cases, Option-cases, length, get_elem?, get_or, take, drop,
  replicate, concat, length-append, length-take, length-drop, length-replicate, length-map,
  take-zero, take-nil, drop-nil, take_of_length-le, take-append, take-take, take-replicate,
  replicate-add, drop-drop, take-add, get_elem?-append,
}
use recoverx_cli.Prelude.Int.{
  ℤ, pos, negsuc, pos_part, neg_part, sub_ℕ, ◌+ℤ◌, ◌-ℤ◌, ◌*ℤ◌, ◌≤ℤ◌, ◌<ℤ◌, leb_ℤ, ltb_ℤ, +ℤ_parts,
  -ℤ_parts, eq_of_parts, int_laws, pos-*, pos-+,
}
pub mod Search
pub mod Found
use recoverx_cli.Utils.Text.{Text, text_eq}

-- `timestamp` and `metadata` are left out, and an edge's weight.
pub record CorrelationNode : Type 0 where
  pub node_id : Text
  pub label : Text
  pub node_type : Text
  pub mft_reference : ℕ
  pub filename : Text

-- `edge_id` is the number behind "e_".
pub record CorrelationEdge : Type 0 where
  pub edge_id : ℕ
  pub source_id : Text
  pub target_id : Text
  pub edge_type : Text

-- The counter gives each edge a key of its own, so the dict of edges is the list of its values.
pub record CorrelationGraph : Type 0 where
  pub nodes : List (Text × CorrelationNode)
  pub edges : List CorrelationEdge
  pub edge_counter : ℕ

abbrev pub new_graph : CorrelationGraph
new_graph = record { nodes = []; edges = []; edge_counter = 0 }

unfoldable pub put_node :
    Text → CorrelationNode → List (Text × CorrelationNode) → List (Text × CorrelationNode)
put_node key node [] = (key, node) ∷ []
put_node key node ((k, n) ∷ nodes) =
    let rest = put_node key node nodes in
    if text_eq k key then (key, node) ∷ nodes else (k, n) ∷ rest

unfoldable pub get_node : Text → List (Text × CorrelationNode) → Option CorrelationNode
get_node key [] = none
get_node key ((k, n) ∷ nodes) =
    let rest = get_node key nodes in if text_eq k key then some n else rest

unfoldable pub add_node : CorrelationNode → CorrelationGraph → CorrelationGraph
unfolding put_node
add_node node g = record g { nodes = put_node node.node_id node g.nodes }

unfoldable pub add_edge : Text → Text → Text → CorrelationGraph → CorrelationGraph
add_edge source_id target_id edge_type g =
    let number = g.edge_counter + 1 in
    let edge : CorrelationEdge = record {
      edge_id = number;
      source_id = source_id;
      target_id = target_id;
      edge_type = edge_type;
    } in
    record g { edges = g.edges ++ edge ∷ []; edge_counter = number }

-- `node in visited`
unfoldable pub seen : Text → List Text → Bool
seen node [] = false
seen node (v ∷ visited) = text_eq node v || seen node visited

-- The queue of `find_path`: a node, and the edges that lead to it.
abbrev pub Queue : Type 0
Queue = List (Text × List CorrelationEdge)

-- what a round of the inner loop appends to the queue
unfoldable pub step : Text → List CorrelationEdge → List Text → CorrelationEdge → Queue
step current path visited edge =
    if text_eq edge.source_id current && not (seen edge.target_id visited)
    then (edge.target_id, path ++ edge ∷ []) ∷ []
    else if text_eq edge.target_id current && not (seen edge.source_id visited)
    then (edge.source_id, path ++ edge ∷ []) ∷ []
    else []

unfoldable pub steps : Text → List CorrelationEdge → List Text → List CorrelationEdge → Queue
unfolding step
steps current path visited [] = []
steps current path visited (edge ∷ edges) =
    step current path visited edge ++ steps current path visited edges

-- The loop; `none` is a loop that needs more rounds.
unfoldable pub search :
    List CorrelationEdge → Text → ℕ → Queue → List Text → Option (List CorrelationEdge)
unfolding steps seen
search edges to_id rounds [] visited = some []
search edges to_id zero ((current, path) ∷ queue) visited = none
search edges to_id (suc rounds) ((current, path) ∷ queue) visited =
    let known = seen current visited in
    let pushed = if known then [] else steps current path (current ∷ visited) edges in
    let next = if known then visited else current ∷ visited in
    let rest = search edges to_id rounds (queue ++ pushed) next in
    if text_eq current to_id then some path else rest

-- Each round takes a node off the queue, and each edge puts two at most there.
unfoldable pub find_path : Text → Text → CorrelationGraph → Option (List CorrelationEdge)
unfolding search
find_path from_id to_id g = search g.edges to_id (2 * length g.edges + 1) ((from_id, []) ∷ []) []
