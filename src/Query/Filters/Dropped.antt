-- ===== src/Query/Filters/Dropped.antt =====
-- The operands that `FilterBuilder` drops.
use recoverx_cli.Prelude.{◌≡◌, refl, ap, [], ◌∷◌}
use recoverx_cli.Utils.Text.{Text}
use recoverx_cli.Query.Operators.{Operator}
use recoverx_cli.Query.Ast.{Literal, QueryNode, comparison, and_node, or_node, not_node}
use recoverx_cli.Query.Filters.{
  Param, Builder, param, empty, handle_comparison, add_group, visit, where_clause, build,
}

-- Two queries that differ at most in the right operands of AND and OR, anywhere in them.
pub data DifferInRights : QueryNode → QueryNode → Type 0 where
  comparisons :
      (name : Text) (op : Operator) (value : Literal)
      → DifferInRights (comparison name op value) (comparison name op value)
  ands :
      (left left' right right' : QueryNode)
      → DifferInRights left left'
      → DifferInRights (and_node left right) (and_node left' right')
  ors :
      (left left' right right' : QueryNode)
      → DifferInRights left left'
      → DifferInRights (or_node left right) (or_node left' right')
  nots :
      (node node' : QueryNode)
      → DifferInRights node node'
      → DifferInRights (not_node node) (not_node node')

-- The value of the comparison that is reached by the left operands alone.
unfoldable pub leftmost_param : QueryNode → Param
leftmost_param (comparison name op value) = param op value
leftmost_param (and_node left right) = leftmost_param left
leftmost_param (or_node left right) = leftmost_param left
leftmost_param (not_node node) = leftmost_param node

visit-DifferInRights :
    (q r : QueryNode) → DifferInRights q r → (b : Builder) → visit q b ≡ visit r b
unfolding visit
visit-DifferInRights _ _ (comparisons name op value) b = refl
visit-DifferInRights _ _ (ands left left' right right' d) b =
    rw (visit-DifferInRights left left' d empty) refl
visit-DifferInRights _ _ (ors left left' right right' d) b =
    rw (visit-DifferInRights left left' d empty) refl
visit-DifferInRights _ _ (nots node node' d) b = rw (visit-DifferInRights node node' d empty) refl

params-visit : (q : QueryNode) → (visit q empty).params ≡ leftmost_param q ∷ []
unfolding visit handle_comparison add_group leftmost_param
params-visit (comparison name op value) = refl
params-visit (and_node left right) = params-visit left
params-visit (or_node left right) = params-visit left
params-visit (not_node node) = params-visit node

-- Queries that differ in the right operands of AND and OR alone, at any depth, have the same filter,
-- text and parameters; and every filter has a single parameter, that of the comparison which is
-- reached by the left operands. So the right operands are dropped, whatever they are.
pub build-DifferInRights :
    (q r : QueryNode)
    → DifferInRights q r
    → (build q ≡ build r) × ((build q).1 ≡ leftmost_param q ∷ [])
unfolding build
build-DifferInRights q r d = (
  ap (λ b. (where_clause b.clauses, b.params)) (visit-DifferInRights q r d empty),
  params-visit q,
)
