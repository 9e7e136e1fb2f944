-- ===== src/Query/Parser.antt =====
-- query/parser.py: `QueryParser` on the tokens that its regular expression finds.
use recoverx_cli.Prelude.{
  ℕ, zero, suc, ◌+◌, ◌-◌, ◌*◌, ◌/◌, ◌%◌, ◌^◌, ◌≤◌, ◌<◌, min, max, ◌≡◌, refl, sym, ap, ◌∙◌, subst,
  fun_ext, ◌≢◌, ◌↔◌, ◌⊎◌, inl, inr, Bool, true, false, not, ◌&&◌, ◌||◌, Option, none, some, List,
  [], ◌∷◌, ◌++◌, map, append-nil, append_assoc, arith, ltb, leb, ◌==◌, if◌then◌else◌, ltb→lt,
  lt→ltb, leb→le, ==_iff, Bool-cases, Option-cases, length, get_elem?, get_or, take, drop,
  replicate, concat, length-append, length-take, length-drop, length-replicate, length-map,
  take-zero, take-nil, drop-nil, take_of_length-le, take-append, take-take, take-replicate,
  replicate-add, drop-drop, take-add, get_elem?-append,
}
use recoverx_cli.Prelude.Int.{
  ℤ, pos, negsuc, pos_part, neg_part, sub_ℕ, ◌+ℤ◌, ◌-ℤ◌, ◌*ℤ◌, ◌≤ℤ◌, ◌<ℤ◌, leb_ℤ, ltb_ℤ, +ℤ_parts,
  -ℤ_parts, eq_of_parts, int_laws, pos-*, pos-+,
}
pub mod RoundTrip
pub mod Printed
use recoverx_cli.Utils.Text.{Text, text, text_eq}
use recoverx_cli.Query.Operators.{Operator, from_string}
use recoverx_cli.Query.Ast.{
  Literal, string, int, float, bool, null, QueryNode, comparison, and_node, or_node, not_node,
}

-- What a method returns: a node and the tokens behind it, or ValueError. `running` is a parser that
-- needs more fuel.
pub data Parsed : Type 0 where
  parsed : QueryNode → List Text → Parsed
  value_error running : Parsed

abbrev pub and_then : Parsed → (QueryNode → List Text → Parsed) → Parsed
and_then (parsed node tokens) f = f node tokens
and_then value_error f = value_error
and_then running f = running

-- The loop behind the first operand, for one of the two operators, on the rounds left.
unfoldable pub operator_loop :
    Text
    → (QueryNode → QueryNode → QueryNode)
    → (List Text → Parsed)
    → ℕ
    → QueryNode
    → List Text
    → Parsed
operator_loop operator node operand zero left tokens = running
operator_loop operator node operand (suc rounds) left [] = parsed left []
operator_loop operator node operand (suc rounds) left (token ∷ tokens) =
    let again = λ (right : QueryNode) (rest : List Text).
      operator_loop operator node operand rounds (node left right) rest in
    if text_eq token operator then and_then (operand tokens) again else parsed left (token ∷ tokens)

-- `_parse_or` and `_parse_and` by their operand
unfoldable pub parse_operators :
    Text → (QueryNode → QueryNode → QueryNode) → (List Text → Parsed) → List Text → Parsed
parse_operators operator node operand tokens =
    and_then (operand tokens) (operator_loop operator node operand (length tokens + 1))

-- Of Python, `lower` is `str.lower`, `match_string` the group of `STRING_PATTERN.match`, `parse_int`
-- is `int`, which on a token is not negative, and `is_float` whether `float` returns.
module _ (lower : Text → Text) (match_string : Text → Option Text) (parse_int : Text → Option ℕ)
    (is_float : Text → Bool) where
  unfoldable pub parse_number : Text → Literal
  parse_number token = elim (parse_int token) [
    | some n ↦ int n
    | none ↦ if is_float token then float token else string token
  ]

  unfoldable pub parse_literal : Text → Literal
  parse_literal token = elim (match_string token) [
    | some s ↦ string s
    | none ↦
        if text_eq (lower token) (text "true")
        then bool true
        else if text_eq (lower token) (text "false")
        then bool false
        else if text_eq (lower token) (text "null") || text_eq (lower token) (text "none")
        then null
        else parse_number token
  ]

  -- the node of a comparison; `none` is an operator that is not known
  unfoldable pub comparison_of : Text → Option Operator → Text → List Text → Parsed
  comparison_of field none token tokens = value_error
  comparison_of field (some operator) token tokens =
      parsed (comparison (lower field) operator (parse_literal token)) tokens

  unfoldable pub parse_comparison : List Text → Parsed
  parse_comparison [] = value_error
  parse_comparison (field ∷ []) = value_error
  parse_comparison (field ∷ (operator ∷ [])) = value_error
  parse_comparison (field ∷ (operator ∷ (token ∷ tokens))) =
      comparison_of field (from_string operator) token tokens

  abbrev pub is_keyword : Text → Bool
  is_keyword token =
      text_eq token (text "AND") || (text_eq token (text "OR") || text_eq token (text "NOT"))

  -- the end of a parenthesis
  abbrev pub close_parenthesis : QueryNode → List Text → Parsed
  close_parenthesis node [] = value_error
  close_parenthesis node (token ∷ tokens) =
      if text_eq token (text ")") then parsed node tokens else value_error

  -- `parse_or` is the method that a parenthesis calls.
  unfoldable pub parse_primary : (List Text → Parsed) → List Text → Parsed
  parse_primary parse_or [] = value_error
  parse_primary parse_or (token ∷ tokens) =
      if text_eq token (text "(")
      then and_then (parse_or tokens) close_parenthesis
      else if is_keyword token
      then value_error
      else parse_comparison (token ∷ tokens)

  abbrev pub negate : QueryNode → List Text → Parsed
  negate node tokens = parsed (not_node node) tokens

  unfoldable pub parse_not : (List Text → Parsed) → List Text → Parsed
  parse_not parse_or [] = parse_primary parse_or []
  parse_not parse_or (token ∷ tokens) =
      if text_eq token (text "NOT")
      then and_then (parse_primary parse_or tokens) negate
      else parse_primary parse_or (token ∷ tokens)

  unfoldable pub parse_and : (List Text → Parsed) → List Text → Parsed
  parse_and parse_or = parse_operators (text "AND") and_node (parse_not parse_or)

  -- The fuel is for the parentheses in parentheses.
  unfoldable pub parse_or : ℕ → List Text → Parsed
  parse_or zero tokens = running
  parse_or (suc fuel) tokens =
      parse_operators (text "OR") or_node (parse_and (parse_or fuel)) tokens

  abbrev pub at_end : QueryNode → List Text → Parsed
  at_end node [] = parsed node []
  at_end node (token ∷ tokens) = value_error

  -- `parse` on the tokens of the query
  unfoldable pub parse : List Text → Parsed
  parse [] = value_error
  parse (token ∷ tokens) = and_then (parse_or (length (token ∷ tokens) + 1) (token ∷ tokens)) at_end
