-- ===== src/Query/Parser/RoundTrip.antt =====
-- query/parser.py: the tokens of a query, and what the loops read of them.
use recoverx_cli.Prelude.{
  ℕ, zero, suc, ◌+◌, ◌≤◌, ◌<◌, max, ◌≡◌, refl, true, false, List, [], ◌∷◌, ◌++◌, arith, length,
  length-append,
}
use recoverx_cli.Utils.Text.{Text, text, text_eq}
use recoverx_cli.Query.Operators.{value}
use recoverx_cli.Query.Ast.{Literal, QueryNode, comparison, and_node, or_node, not_node}
use recoverx_cli.Query.Parser.{Parsed, parsed, operator_loop, parse_operators}

-- How deep the parentheses of a printed query are.
unfoldable pub depth : QueryNode → ℕ
depth (comparison field operator literal) = 0
depth (and_node a b) = suc (max (depth a) (depth b))
depth (or_node a b) = suc (max (depth a) (depth b))
depth (not_node a) = suc (depth a)

module _ (show : Literal → Text) where
  -- The tokens of a query, in parentheses but for a comparison.
  unfoldable pub tokens_of : QueryNode → List Text
  tokens_of (comparison field operator literal) = field ∷ (value operator ∷ (show literal ∷ []))
  tokens_of (and_node a b) =
      text "(" ∷ (tokens_of a ++ (text "AND" ∷ (tokens_of b ++ (text ")" ∷ []))))
  tokens_of (or_node a b) =
      text "(" ∷ (tokens_of a ++ (text "OR" ∷ (tokens_of b ++ (text ")" ∷ []))))
  tokens_of (not_node a) = text "(" ∷ (text "NOT" ∷ (tokens_of a ++ (text ")" ∷ [])))

  pub depth_le : (node : QueryNode) → depth node ≤ length (tokens_of node)
  unfolding depth tokens_of
  depth_le (comparison field operator literal) = omega arith
  depth_le (and_node a b) = omega (
    arith,
    depth_le a,
    depth_le b,
    length-append (tokens_of a) (text "AND" ∷ (tokens_of b ++ (text ")" ∷ []))),
    length-append (tokens_of b) (text ")" ∷ []),
  )
  depth_le (or_node a b) = omega (
    arith,
    depth_le a,
    depth_le b,
    length-append (tokens_of a) (text "OR" ∷ (tokens_of b ++ (text ")" ∷ []))),
    length-append (tokens_of b) (text ")" ∷ []),
  )
  depth_le (not_node a) = omega (arith, depth_le a, length-append (tokens_of a) (text ")" ∷ []))

-- A loop that meets another token, and one that meets its operator once.
operator_loop-stop :
    (operator : Text) (node : QueryNode → QueryNode → QueryNode) (operand : List Text → Parsed)
    (rounds : ℕ) (left : QueryNode) (token : Text) (tokens : List Text)
    → 0 < rounds
    → text_eq token operator ≡ false
    → operator_loop operator node operand rounds left (token ∷ tokens)
      ≡ parsed left (token ∷ tokens)
unfolding operator_loop
operator_loop-stop operator node operand zero left token tokens h e = absurd (omega arith)
operator_loop-stop operator node operand (suc rounds) left token tokens h e = rw e

operator_loop-once :
    (operator : Text) (node : QueryNode → QueryNode → QueryNode) (operand : List Text → Parsed)
    (rounds : ℕ) (left right : QueryNode) (tokens : List Text) (token : Text) (rest : List Text)
    → 1 < rounds
    → text_eq operator operator ≡ true
    → operand tokens ≡ parsed right (token ∷ rest)
    → text_eq token operator ≡ false
    → operator_loop operator node operand rounds left (operator ∷ tokens)
      ≡ parsed (node left right) (token ∷ rest)
unfolding operator_loop
operator_loop-once operator node operand zero left right tokens token rest h s o e =
    absurd (omega arith)
operator_loop-once operator node operand (suc rounds) left right tokens token rest h s o e =
    rw (s, o)
      (operator_loop-stop operator node operand rounds (node left right) token rest (omega arith) e)

-- A single operand.
pub parse_operators-stop :
    (operator : Text) (node : QueryNode → QueryNode → QueryNode) (operand : List Text → Parsed)
    (tokens : List Text) (left : QueryNode) (token : Text) (rest : List Text)
    → operand tokens ≡ parsed left (token ∷ rest)
    → text_eq token operator ≡ false
    → parse_operators operator node operand tokens ≡ parsed left (token ∷ rest)
unfolding parse_operators
parse_operators-stop operator node operand tokens left token rest o e =
    rw o
      (operator_loop-stop operator node operand (length tokens + 1) left token rest (omega arith) e)

pub parse_operators-once :
    (operator : Text) (node : QueryNode → QueryNode → QueryNode) (operand : List Text → Parsed)
    (tokens : List Text) (left right : QueryNode) (more : List Text) (token : Text)
    (rest : List Text)
    → 0 < length tokens
    → text_eq operator operator ≡ true
    → operand tokens ≡ parsed left (operator ∷ more)
    → operand more ≡ parsed right (token ∷ rest)
    → text_eq token operator ≡ false
    → parse_operators operator node operand tokens ≡ parsed (node left right) (token ∷ rest)
unfolding parse_operators
parse_operators-once operator node operand tokens left right more token rest n s o p e = rw o (
    operator_loop-once operator node operand (length tokens + 1) left right more token rest
      (omega arith) s p e)

operator_loop-end :
    (operator : Text) (node : QueryNode → QueryNode → QueryNode) (operand : List Text → Parsed)
    (rounds : ℕ) (left : QueryNode)
    → 0 < rounds
    → operator_loop operator node operand rounds left [] ≡ parsed left []
unfolding operator_loop
operator_loop-end operator node operand zero left h = absurd (omega arith)
operator_loop-end operator node operand (suc rounds) left h = refl

-- A single operand at the end of the tokens.
pub parse_operators-end :
    (operator : Text) (node : QueryNode → QueryNode → QueryNode) (operand : List Text → Parsed)
    (tokens : List Text) (left : QueryNode)
    → operand tokens ≡ parsed left []
    → parse_operators operator node operand tokens ≡ parsed left []
unfolding parse_operators
parse_operators-end operator node operand tokens left o =
    rw o (operator_loop-end operator node operand (length tokens + 1) left (omega arith))
