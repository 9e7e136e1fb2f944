-- ===== src/Tests/Query.antt =====
-- A filter of two comparisons.
use recoverx_cli.Prelude.{◌≡◌, refl, [], ◌∷◌, length}
use recoverx_cli.Utils.Text.{text, text_eq}
use recoverx_cli.Query.Operators.{Operator}
use recoverx_cli.Query.Ast.{Literal, QueryNode, comparison, and_node, or_node, not_node}
use recoverx_cli.Query.Filters.{
  formatted, build, join, visit, handle_comparison, add_group, where_clause, field_name, get_field,
  condition, param,
}
use recoverx_cli.Query.Filters.Safety.{map_literals, marks, build-map_literals, marks-build}
use recoverx_cli.Query.Filters.Dropped.{
  DifferInRights, comparisons, ands, ors, leftmost_param, build-DifferInRights,
}

-- filename contains "x'; DROP TABLE" AND size > 5
abbrev left : QueryNode
left = comparison (text "filename") Operator.contains (Literal.string (text "x'; DROP TABLE"))

abbrev right : QueryNode
right = comparison (text "size") Operator.gt (Literal.int 5)

program : Unit {0}
unfolding build join visit handle_comparison add_group where_clause field_name get_field condition
    param text_eq map_literals marks
program = tt

build_group : build (and_node left right) ≡ (
  text "(filename LIKE ?)",
  formatted (text "%") (Literal.string (text "x'; DROP TABLE")) (text "%") ∷ [],
)
unfolding program
build_group = refl

build_not : (build (not_node right)).0 ≡ text "NOT ( AND file_size > ? AND )"
unfolding program
build_not = refl

build-map_literals_example :
    (build (map_literals (λ value. Literal.null) (and_node left right))).0
    ≡ (build (and_node left right)).0
build-map_literals_example = build-map_literals (λ value. Literal.null) (and_node left right)

marks-build_example : marks (build (or_node left right)).0 ≡ length (build (or_node left right)).1
unfolding program
marks-build_example = marks-build (or_node left right) (refl, refl)

-- (left OR right) AND left, and (left OR left) AND right
some_query :
    DifferInRights (and_node (or_node left right) left) (and_node (or_node left left) right)
some_query = ands (or_node left right) (or_node left left) left right (
    ors left left right left
      (comparisons (text "filename") Operator.contains (Literal.string (text "x'; DROP TABLE"))))

build-DifferInRights_example :
    (build (and_node (or_node left right) left) ≡ build (and_node (or_node left left) right))
    × ((build (and_node (or_node left right) left)).1
        ≡ formatted (text "%") (Literal.string (text "x'; DROP TABLE")) (text "%") ∷ [])
unfolding leftmost_param param
build-DifferInRights_example =
    build-DifferInRights (and_node (or_node left right) left) (and_node (or_node left left) right)
      some_query
