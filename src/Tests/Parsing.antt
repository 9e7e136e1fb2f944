-- ===== src/Tests/Parsing.antt =====
-- Queries as tokens.
use recoverx_cli.Prelude.{ℕ, ◌≡◌, refl, Bool, false, Option, none, some, [], ◌∷◌, if◌then◌else◌}
use recoverx_cli.Utils.Text.{Text, text, text_eq}
use recoverx_cli.Query.Operators.{Operator, value, from_string}
use recoverx_cli.Query.Ast.{
  Literal, string, int, float, bool, null, QueryNode, comparison, and_node, not_node, or_node,
}
use recoverx_cli.Query.Parser.{
  parsed, value_error, parse_number, parse_literal, comparison_of, parse_comparison, operator_loop,
  parse_operators, parse_primary, parse_not, parse_and, parse_or, parse,
}
use recoverx_cli.Query.Parser.RoundTrip.{tokens_of}
use recoverx_cli.Query.Parser.Printed.{IsPrintable, parse-tokens_of}

-- Texts without capitals, quotes and fractions, with the number 1.
abbrev lower : Text → Text
lower s = s

abbrev match_string : Text → Option Text
match_string s = none

unfoldable parse_int : Text → Option ℕ
parse_int s = if text_eq s (text "1") then some 1 else none

abbrev is_float : Text → Bool
is_float s = false

abbrev show : Literal → Text
show (string s) = s
show (int n) = text "1"
show (float s) = s
show (bool b) = text "true"
show null = text "null"

-- (size > 1 AND (NOT name == a))
abbrev query : QueryNode
query =
    and_node (comparison (text "size") Operator.gt (int 1))
      (not_node (comparison (text "name") Operator.eq (string (text "a"))))

program : Unit {0}
unfolding text_eq parse_int parse_number parse_literal comparison_of parse_comparison operator_loop
    parse_operators parse_primary parse_not parse_and parse_or parse from_string value tokens_of
program = tt

query-IsPrintable : IsPrintable lower match_string parse_int is_float show query
unfolding program
query-IsPrintable = ((refl, refl, refl, refl), (refl, refl, refl, refl))

parse-tokens_of_example :
    parse lower match_string parse_int is_float (
      text "("
      ∷ text "size"
      ∷ text ">"
      ∷ text "1"
      ∷ text "AND"
      ∷ text "("
      ∷ text "NOT"
      ∷ text "name"
      ∷ text "=="
      ∷ text "a"
      ∷ text ")"
      ∷ text ")"
      ∷ [])
    ≡ parsed query []
unfolding program
parse-tokens_of_example =
    parse-tokens_of lower match_string parse_int is_float show query query-IsPrintable

-- AND binds its operands before OR does.
binds_and_first :
    parse lower match_string parse_int is_float (
      text "a"
      ∷ text "=="
      ∷ text "1"
      ∷ text "OR"
      ∷ text "a"
      ∷ text "=="
      ∷ text "1"
      ∷ text "AND"
      ∷ text "a"
      ∷ text "=="
      ∷ text "1"
      ∷ [])
    ≡ (let a = comparison (text "a") Operator.eq (int 1) in parsed (or_node a (and_node a a)) [])
unfolding program
binds_and_first = refl

-- NOT takes a comparison or a parenthesis, and no other NOT.
refuses_two_nots :
    parse lower match_string parse_int is_float
      (text "NOT" ∷ text "NOT" ∷ text "a" ∷ text "==" ∷ text "1" ∷ [])
    ≡ value_error
unfolding program
refuses_two_nots = refl
