-- ===== src/Query/Parser/Printed.antt =====
-- query/parser.py: the queries that are parsed back from their tokens.
use recoverx_cli.Prelude.{
  ℕ, zero, suc, ◌+◌, ◌≤◌, ◌<◌, ◌≡◌, refl, ap, ◌∙◌, subst, Bool, false, Option, List, [], ◌∷◌, ◌++◌,
  append-nil, append_assoc, arith, length,
}
use recoverx_cli.Utils.Text.{Text, text, text_eq}
use recoverx_cli.Query.Operators.{Operator, value, from_string-value}
use recoverx_cli.Query.Ast.{Literal, QueryNode, comparison, and_node, or_node, not_node}
use recoverx_cli.Query.Parser.{
  Parsed, parsed, parse_operators, is_keyword, parse_literal, comparison_of, parse_comparison,
  parse_primary, parse_not, parse_and, parse_or, parse,
}
use recoverx_cli.Query.Parser.RoundTrip.{
  depth, tokens_of, depth_le, parse_operators-stop, parse_operators-once, parse_operators-end,
}

-- A list in parentheses, with what is behind it.
enclosed :
    (ts us : List Text) (token last : Text) (rest : List Text)
    → (ts ++ (token ∷ (us ++ (last ∷ [])))) ++ rest ≡ ts ++ (token ∷ (us ++ (last ∷ rest)))
enclosed ts us token last rest = rw (append_assoc, append_assoc)

module _ (lower : Text → Text) (match_string : Text → Option Text) (parse_int : Text → Option ℕ)
    (is_float : Text → Bool) (show : Literal → Text) where
  -- The fields of a query are in lower case and are neither a keyword nor a parenthesis, and its
  -- literals are read back.
  abbrev pub IsPrintable : QueryNode → Type 0
  IsPrintable (comparison field operator literal) =
      (lower field ≡ field)
      × (text_eq field (text "(") ≡ false)
      × (is_keyword lower match_string parse_int is_float field ≡ false)
      × (parse_literal lower match_string parse_int is_float (show literal) ≡ literal)
  IsPrintable (and_node a b) = IsPrintable a × IsPrintable b
  IsPrintable (or_node a b) = IsPrintable a × IsPrintable b
  IsPrintable (not_node a) = IsPrintable a

  primary : (List Text → Parsed) → List Text → Parsed
  primary = parse_primary lower match_string parse_int is_float

  operand : (List Text → Parsed) → List Text → Parsed
  operand = parse_not lower match_string parse_int is_float

  conjunction : (List Text → Parsed) → List Text → Parsed
  conjunction = parse_and lower match_string parse_int is_float

  whole : ℕ → List Text → Parsed
  whole = parse_or lower match_string parse_int is_float

  primary-parenthesis :
      (inner : List Text → Parsed) (tokens : List Text) (node : QueryNode) (rest : List Text)
      → inner tokens ≡ parsed node (text ")" ∷ rest)
      → primary inner (text "(" ∷ tokens) ≡ parsed node rest
  unfolding primary parse_primary text_eq
  primary-parenthesis inner tokens node rest h = rw h

  -- A printed query does not begin with NOT.
  operand-tokens_of :
      (inner : List Text → Parsed) (node : QueryNode) (rest : List Text)
      → IsPrintable node
      → operand inner (tokens_of show node ++ rest) ≡ primary inner (tokens_of show node ++ rest)
  unfolding operand primary parse_not text_eq tokens_of
  operand-tokens_of inner (comparison field operator literal) rest (_, _, k, _) =
      let plain : text_eq field (text "NOT") ≡ false = ground (arith, k) in rw plain
  operand-tokens_of inner (and_node a b) rest h = refl
  operand-tokens_of inner (or_node a b) rest h = refl
  operand-tokens_of inner (not_node a) rest h = refl

  -- What is shown of the operands in parentheses.
  Reads : ℕ → QueryNode → Type 0
  Reads fuel node =
      (rest : List Text) → operand (whole fuel) (tokens_of show node ++ rest) ≡ parsed node rest

  some_tokens : (node : QueryNode) (rest : List Text) → 0 < length (tokens_of show node ++ rest)
  unfolding tokens_of
  some_tokens (comparison field operator literal) rest = omega arith
  some_tokens (and_node a b) rest = omega arith
  some_tokens (or_node a b) rest = omega arith
  some_tokens (not_node a) rest = omega arith

  whole-and :
      (fuel : ℕ) (a b : QueryNode) (rest : List Text)
      → Reads fuel a
      → Reads fuel b
      → whole
          (suc fuel)
          (tokens_of show a ++ (text "AND" ∷ (tokens_of show b ++ (text ")" ∷ rest))))
        ≡ parsed (and_node a b) (text ")" ∷ rest)
  unfolding Reads whole parse_or parse_and operand text_eq conjunction parse_operators
  whole-and fuel a b rest p q =
      let more = tokens_of show b ++ (text ")" ∷ rest) in
      let tokens = tokens_of show a ++ (text "AND" ∷ more) in
      parse_operators-stop (text "OR") or_node (conjunction (whole fuel)) tokens (and_node a b)
        (text ")") rest
        (parse_operators-once (text "AND") and_node (operand (whole fuel)) tokens a b more
          (text ")") rest (some_tokens a (text "AND" ∷ more)) refl (p (text "AND" ∷ more))
          (q (text ")" ∷ rest)) refl)
        refl

  whole-or :
      (fuel : ℕ) (a b : QueryNode) (rest : List Text)
      → Reads fuel a
      → Reads fuel b
      → whole (suc fuel) (tokens_of show a ++ (text "OR" ∷ (tokens_of show b ++ (text ")" ∷ rest))))
        ≡ parsed (or_node a b) (text ")" ∷ rest)
  unfolding Reads whole parse_or parse_and operand text_eq conjunction parse_operators
  whole-or fuel a b rest p q =
      let more = tokens_of show b ++ (text ")" ∷ rest) in
      let tokens = tokens_of show a ++ (text "OR" ∷ more) in
      parse_operators-once (text "OR") or_node (conjunction (whole fuel)) tokens a b more (text ")")
        rest (some_tokens a (text "OR" ∷ more)) refl
        (parse_operators-stop (text "AND") and_node (operand (whole fuel)) tokens a (text "OR") more
          (p (text "OR" ∷ more)) refl)
        (parse_operators-stop (text "AND") and_node (operand (whole fuel)) more b (text ")") rest
          (q (text ")" ∷ rest)) refl)
        refl

  whole-not :
      (fuel : ℕ) (a : QueryNode) (rest : List Text)
      → primary (whole fuel) (tokens_of show a ++ (text ")" ∷ rest)) ≡ parsed a (text ")" ∷ rest)
      → whole (suc fuel) (text "NOT" ∷ (tokens_of show a ++ (text ")" ∷ rest)))
        ≡ parsed (not_node a) (text ")" ∷ rest)
  unfolding whole parse_or parse_and operand parse_not primary text_eq conjunction parse_operators
  whole-not fuel a rest p =
      let tokens = text "NOT" ∷ (tokens_of show a ++ (text ")" ∷ rest)) in
      let negated : operand (whole fuel) tokens ≡ parsed (not_node a) (text ")" ∷ rest) = rw p in
      parse_operators-stop (text "OR") or_node (conjunction (whole fuel)) tokens (not_node a)
        (text ")") rest
        (parse_operators-stop (text "AND") and_node (operand (whole fuel)) tokens (not_node a)
          (text ")") rest negated refl)
        refl

  parse_comparison-tokens :
      (field : Text) (operator : Operator) (literal : Literal) (rest : List Text)
      → lower field ≡ field
      → parse_literal lower match_string parse_int is_float (show literal) ≡ literal
      → parse_comparison lower match_string parse_int is_float
          (field ∷ (value operator ∷ (show literal ∷ rest)))
        ≡ parsed (comparison field operator literal) rest
  unfolding parse_comparison comparison_of
  parse_comparison-tokens field operator literal rest l s = rw (from_string-value operator, l, s)

  -- With fuel for its parentheses a printed query is read as a primary.
  primary-tokens_of :
      (node : QueryNode) (fuel : ℕ) (rest : List Text)
      → IsPrintable node
      → depth node ≤ fuel
      → primary (whole fuel) (tokens_of show node ++ rest) ≡ parsed node rest
  unfolding depth tokens_of primary parse_primary Reads
  primary-tokens_of (comparison field operator literal) fuel rest (l, p, k, s) enough =
      rw (p, k) (parse_comparison-tokens field operator literal rest l s)
  primary-tokens_of (and_node a b) zero rest h enough = absurd (omega arith)
  primary-tokens_of (or_node a b) zero rest h enough = absurd (omega arith)
  primary-tokens_of (not_node a) zero rest h enough = absurd (omega arith)
  primary-tokens_of (and_node a b) (suc fuel) rest h enough =
      let inner =
        whole-and fuel a b rest
          (λ more.
            operand-tokens_of (whole fuel) a more h.0
            ∙ primary-tokens_of a fuel more h.0 (omega (arith, enough)))
          (λ more.
            operand-tokens_of (whole fuel) b more h.1
            ∙ primary-tokens_of b fuel more h.1 (omega (arith, enough))) in
      ap (λ tokens. primary (whole (suc fuel)) (text "(" ∷ tokens))
        (enclosed (tokens_of show a) (tokens_of show b) (text "AND") (text ")") rest)
      ∙ primary-parenthesis (whole (suc fuel)) _ (and_node a b) rest inner
  primary-tokens_of (or_node a b) (suc fuel) rest h enough =
      let inner =
        whole-or fuel a b rest
          (λ more.
            operand-tokens_of (whole fuel) a more h.0
            ∙ primary-tokens_of a fuel more h.0 (omega (arith, enough)))
          (λ more.
            operand-tokens_of (whole fuel) b more h.1
            ∙ primary-tokens_of b fuel more h.1 (omega (arith, enough))) in
      ap (λ tokens. primary (whole (suc fuel)) (text "(" ∷ tokens))
        (enclosed (tokens_of show a) (tokens_of show b) (text "OR") (text ")") rest)
      ∙ primary-parenthesis (whole (suc fuel)) _ (or_node a b) rest inner
  primary-tokens_of (not_node a) (suc fuel) rest h enough =
      let inner =
        whole-not fuel a rest
          (primary-tokens_of a fuel (text ")" ∷ rest) h (omega (arith, enough))) in
      ap (λ tokens. primary (whole (suc fuel)) (text "(" ∷ (text "NOT" ∷ tokens)))
        (append_assoc (tokens_of show a) (text ")" ∷ []) rest)
      ∙ primary-parenthesis (whole (suc fuel)) _ (not_node a) rest inner

  parse-whole :
      (tokens : List Text) (node : QueryNode)
      → 0 < length tokens
      → whole (length tokens + 1) tokens ≡ parsed node []
      → parse lower match_string parse_int is_float tokens ≡ parsed node []
  unfolding parse whole
  parse-whole [] node h e = absurd (omega arith)
  parse-whole (token ∷ tokens) node h e = rw e

  -- A printed query of fields in lower case that are neither a keyword nor a parenthesis, and of
  -- literals that are read back, is parsed: `parse` ends and returns the query.
  pub parse-tokens_of :
      (node : QueryNode)
      → IsPrintable node
      → parse lower match_string parse_int is_float (tokens_of show node) ≡ parsed node []
  unfolding whole parse_or parse_and operand conjunction
  parse-tokens_of node h =
      let tokens = tokens_of show node in
      let fuel = length tokens in
      let nil = append-nil tokens in
      let first : primary (whole fuel) (tokens ++ []) ≡ parsed node [] =
        primary-tokens_of node fuel [] h (depth_le show node) in
      let read : operand (whole fuel) tokens ≡ parsed node [] =
        subst (λ ts. operand (whole fuel) ts ≡ parsed node []) nil
          (operand-tokens_of (whole fuel) node [] h ∙ first) in
      let enough : 0 < length tokens = subst (λ ts. 0 < length ts) nil (some_tokens node []) in
      let next : suc fuel ≡ fuel + 1 = omega arith in
      parse-whole tokens node enough (
        subst (λ n. whole n tokens ≡ parsed node []) next
          (parse_operators-end (text "OR") or_node (conjunction (whole fuel)) tokens node
            (parse_operators-end (text "AND") and_node (operand (whole fuel)) tokens node read)))
