-- ===== src/Query/Filters/Safety.antt =====
-- A query's values, the SQL text and its placeholders.
use recoverx_cli.Prelude.{
  ℕ, ◌+◌, ◌≡◌, refl, ◌∙◌, Bool, true, ◌&&◌, List, [], ◌∷◌, ◌++◌, arith, ◌==◌, if◌then◌else◌, length,
  length-append,
}
use recoverx_cli.Utils.Text.{Text, text}
use recoverx_cli.Query.Operators.{Operator}
use recoverx_cli.Query.Ast.{Literal, QueryNode, comparison, and_node, or_node, not_node}
use recoverx_cli.Query.Filters.{
  field_map, get_field, field_name, condition, param, Builder, empty, handle_comparison, join,
  add_group, visit, where_clause, build,
}

-- The query with other values.
unfoldable pub map_literals : (Literal → Literal) → QueryNode → QueryNode
map_literals f (comparison name op value) = comparison name op (f value)
map_literals f (and_node left right) = and_node (map_literals f left) (map_literals f right)
map_literals f (or_node left right) = or_node (map_literals f left) (map_literals f right)
map_literals f (not_node node) = not_node (map_literals f node)

clauses-visit :
    (f : Literal → Literal) (node : QueryNode) (b c : Builder)
    → b.clauses ≡ c.clauses
    → (visit (map_literals f node) b).clauses ≡ (visit node c).clauses
unfolding visit map_literals handle_comparison add_group
clauses-visit f (comparison name op value) b c h = rw h
clauses-visit f (and_node left right) b c h = rw (h, clauses-visit f left empty empty refl)
clauses-visit f (or_node left right) b c h = rw (h, clauses-visit f left empty empty refl)
clauses-visit f (not_node node) b c h = rw (h, clauses-visit f node empty empty refl)

-- The SQL text of a query does not depend on its values: with any other values it is the same.
pub build-map_literals :
    (f : Literal → Literal) (node : QueryNode) → (build (map_literals f node)).0 ≡ (build node).0
unfolding build
build-map_literals f node = rw (clauses-visit f node empty empty refl)

-- The number of placeholders in a text.
unfoldable pub marks : Text → ℕ
marks [] = 0
marks (c ∷ s) = (if c == b'?' then 1 else 0) + marks s

marks-append : (s t : Text) → marks (s ++ t) ≡ marks s + marks t
unfolding marks
marks-append [] t = omega arith
marks-append (c ∷ s) t = omega (arith, marks-append s t)

-- The query's field names hold no placeholder (a name is a word of letters, digits and `_`).
abbrev pub PlainNames : QueryNode → Type 0
PlainNames (comparison name op value) = marks name ≡ 0
PlainNames (and_node left right) = PlainNames left × PlainNames right
PlainNames (or_node left right) = PlainNames left × PlainNames right
PlainNames (not_node node) = PlainNames node

clause_marks : List Text → ℕ
clause_marks [] = 0
clause_marks (c ∷ cs) = marks c + clause_marks cs

clause_marks-append :
    (cs ds : List Text) → clause_marks (cs ++ ds) ≡ clause_marks cs + clause_marks ds
unfolding clause_marks
clause_marks-append [] ds = omega arith
clause_marks-append (c ∷ cs) ds = omega (arith, clause_marks-append cs ds)

marks-join :
    (separator : Text) (cs : List Text)
    → marks separator ≡ 0
    → marks (join separator cs) ≡ clause_marks cs
unfolding join clause_marks marks
marks-join separator [] h = refl
marks-join separator (c ∷ []) h = omega arith
marks-join separator (c ∷ d ∷ cs) h =
    rw
      (
        marks-append (c ++ separator) (join separator (d ∷ cs)),
        marks-append c separator,
        marks-join separator (d ∷ cs) h,
        h,
      )
      (omega arith)

plain_columns : List (Text × Text) → Bool
plain_columns [] = true
plain_columns ((key, column) ∷ entries) = marks column == 0 && plain_columns entries

marks-get_field :
    (entries : List (Text × Text)) (name : Text)
    → plain_columns entries ≡ true
    → marks name ≡ 0
    → marks (get_field entries name) ≡ 0
unfolding plain_columns get_field
marks-get_field [] name p h = h
marks-get_field ((key, column) ∷ entries) name p h = ground (arith, marks-get_field entries name)

marks-field_name : (name : Text) → marks name ≡ 0 → marks (field_name name) ≡ 0
unfolding field_name
marks-field_name name h = marks-get_field field_map name (unfold plain_columns marks in refl) h

marks-condition : (op : Operator) → marks (condition op) ≡ 1
unfolding condition marks
marks-condition Operator.eq = refl
marks-condition Operator.neq = refl
marks-condition Operator.gt = refl
marks-condition Operator.gte = refl
marks-condition Operator.lt = refl
marks-condition Operator.lte = refl
marks-condition Operator.contains = refl
marks-condition Operator.not_contains = refl
marks-condition Operator.starts_with = refl
marks-condition Operator.ends_with = refl
marks-condition Operator.in_list = refl
marks-condition Operator.not_in_list = refl
marks-condition Operator.like = refl

-- A builder with as many placeholders as values.
abbrev IsBalanced : Builder → Type 0
IsBalanced b = clause_marks b.clauses ≡ length b.params

handle_comparison-IsBalanced :
    (name : Text) (op : Operator) (value : Literal) (b : Builder)
    → marks name ≡ 0
    → IsBalanced b
    → IsBalanced (handle_comparison name op value b)
unfolding handle_comparison clause_marks
handle_comparison-IsBalanced name op value b h e = omega (
  arith,
  clause_marks-append b.clauses ((field_name name ++ condition op) ∷ []),
  length-append b.params (param op value ∷ []),
  marks-append (field_name name) (condition op),
  marks-field_name name h,
  marks-condition op,
)

marks-parentheses : (s : Text) → marks (text "(" ++ s ++ text ")") ≡ marks s
unfolding marks
marks-parentheses s = omega (arith, marks-append s (text ")"))

add_group-IsBalanced :
    (separator : Text) (b inner : Builder)
    → marks separator ≡ 0
    → IsBalanced b
    → IsBalanced inner
    → IsBalanced (add_group separator b inner)
unfolding add_group clause_marks
add_group-IsBalanced separator b inner h e f = omega (
  arith,
  clause_marks-append b.clauses ((text "(" ++ join separator inner.clauses ++ text ")") ∷ []),
  length-append b.params inner.params,
  marks-parentheses (join separator inner.clauses),
  marks-join separator inner.clauses h,
)

visit-IsBalanced :
    (node : QueryNode) (b : Builder) → PlainNames node → IsBalanced b → IsBalanced (visit node b)
unfolding visit
visit-IsBalanced (comparison name op value) b h e = handle_comparison-IsBalanced name op value b h e
visit-IsBalanced (and_node left right) b h e =
    add_group-IsBalanced (text " AND ") b (visit left empty) (unfold marks in refl) e
      (visit-IsBalanced left empty h.0 (unfold clause_marks in refl))
visit-IsBalanced (or_node left right) b h e =
    add_group-IsBalanced (text " OR ") b (visit left empty) (unfold marks in refl) e
      (visit-IsBalanced left empty h.0 (unfold clause_marks in refl))
visit-IsBalanced (not_node node) b h e =
    let inner = visit node empty in
    let opened = clause_marks-append b.clauses (text "NOT (" ∷ []) in
    let middle = clause_marks-append (b.clauses ++ text "NOT (" ∷ []) inner.clauses in
    let closed =
      clause_marks-append ((b.clauses ++ text "NOT (" ∷ []) ++ inner.clauses) (text ")" ∷ []) in
    let ends : (clause_marks (text "NOT (" ∷ []) ≡ 0) × (clause_marks (text ")" ∷ []) ≡ 0) =
      (unfold clause_marks marks in (refl, refl)) in
    omega (
      arith,
      opened,
      middle,
      closed,
      ends,
      visit-IsBalanced node empty h (unfold clause_marks in refl),
      length-append b.params inner.params,
    )

marks-where_clause :
    (c : Text) (cs : List Text) → marks (where_clause (c ∷ cs)) ≡ clause_marks (c ∷ cs)
unfolding where_clause
marks-where_clause c cs = marks-join (text " AND ") (c ∷ cs) (unfold marks in refl)

-- A visit adds a clause.
visit_not_nil :
    (node : QueryNode) → (c : Text) × (rest : List Text) × ((visit node empty).clauses ≡ c ∷ rest)
unfolding visit handle_comparison add_group
visit_not_nil (comparison name op value) = (_, _, refl)
visit_not_nil (and_node left right) = (_, _, refl)
visit_not_nil (or_node left right) = (_, _, refl)
visit_not_nil (not_node node) = (_, _, refl)

-- The WHERE clause of a query with plain field names has as many placeholders as `build` returns
-- values for them.
pub marks-build :
    (node : QueryNode) → PlainNames node → marks (build node).0 ≡ length (build node).1
unfolding build
marks-build node h =
    let (c, cs, e) = visit_not_nil node in
    let balanced = visit-IsBalanced node empty h (unfold clause_marks in refl) in
    let clauses = (visit node empty).clauses in
    let counted : marks (where_clause clauses) ≡ clause_marks clauses =
      rw e (marks-where_clause c cs) in
    counted ∙ balanced
