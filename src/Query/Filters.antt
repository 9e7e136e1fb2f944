-- ===== src/Query/Filters.antt =====
-- query/filters.py: `FilterBuilder`, which turns a query into the WHERE clause of a statement and the
-- values of its placeholders.
use recoverx_cli.Prelude.{
  ℕ, zero, suc, ◌+◌, ◌-◌, ◌*◌, ◌/◌, ◌%◌, ◌^◌, ◌≤◌, ◌<◌, min, max, ◌≡◌, refl, sym, ap, ◌∙◌, subst,
  fun_ext, ◌≢◌, ◌↔◌, ◌⊎◌, inl, inr, Bool, true, false, not, ◌&&◌, ◌||◌, Option, none, some, List,
  [], ◌∷◌, ◌++◌, map, append-nil, append_assoc, arith, ltb, leb, ◌==◌, if◌then◌else◌, ltb→lt,
  lt→ltb, leb→le, ==_iff, Bool-cases, Option-cases, length, get_elem?, get_or, take, drop,
  replicate, concat, length-append, length-take, length-drop, length-replicate, length-map,
  take-zero, take-nil, drop-nil, take_of_length-le, take-append, take-take, take-replicate,
  replicate-add, drop-drop, take-add, get_elem?-append,
}
use recoverx_cli.Prelude.Int.{
  ℤ, pos, negsuc, pos_part, neg_part, sub_ℕ, ◌+ℤ◌, ◌-ℤ◌, ◌*ℤ◌, ◌≤ℤ◌, ◌<ℤ◌, leb_ℤ, ltb_ℤ, +ℤ_parts,
  -ℤ_parts, eq_of_parts, int_laws, pos-*, pos-+,
}
pub mod Safety
pub mod Dropped
use recoverx_cli.Utils.Text.{Text, text, text_eq}
use recoverx_cli.Query.Operators.{
  Operator, eq, neq, gt, gte, lt, lte, contains, not_contains, starts_with, ends_with, in_list,
  not_in_list, like,
}
use recoverx_cli.Query.Ast.{Literal, QueryNode, comparison, and_node, or_node, not_node}

-- A value for a placeholder: as it is, or formatted between two texts as in `f"%{value}%"`.
pub data Param : Type 0 where
  plain : Literal → Param
  formatted : Text → Literal → Text → Param

-- FIELD_MAP
abbrev pub field_map : List (Text × Text)
field_map =
    (text "event", text "event_type")
    ∷ (text "type", text "event_type")
    ∷ (text "event_type", text "event_type")
    ∷ (text "source", text "source")
    ∷ (text "filename", text "filename")
    ∷ (text "name", text "filename")
    ∷ (text "timestamp", text "timestamp")
    ∷ (text "time", text "timestamp")
    ∷ (text "mft", text "mft_reference")
    ∷ (text "mft_ref", text "mft_reference")
    ∷ (text "parent_mft", text "parent_mft_reference")
    ∷ (text "confidence", text "confidence")
    ∷ (text "size", text "file_size")
    ∷ (text "file_size", text "file_size")
    ∷ (text "previous_name", text "previous_filename")
    ∷ (text "old_name", text "previous_filename")
    ∷ (text "sha256", text "sha256")
    ∷ (text "hash", text "sha256")
    ∷ []

-- `FIELD_MAP.get(name, name)`
unfoldable pub get_field : List (Text × Text) → Text → Text
unfolding text_eq
get_field [] name = name
get_field ((key, column) ∷ entries) name =
    if text_eq key name then column else get_field entries name

unfoldable pub field_name : Text → Text
unfolding get_field
field_name = get_field field_map

-- the part of a clause behind the column
unfoldable pub condition : Operator → Text
condition eq = text " = ?"
condition neq = text " != ?"
condition gt = text " > ?"
condition gte = text " >= ?"
condition lt = text " < ?"
condition lte = text " <= ?"
condition contains = text " LIKE ?"
condition not_contains = text " NOT LIKE ?"
condition starts_with = text " LIKE ?"
condition ends_with = text " LIKE ?"
condition like = text " LIKE ?"
condition in_list = text " = ?"
condition not_in_list = text " = ?"

unfoldable pub param : Operator → Literal → Param
param contains value = formatted (text "%") value (text "%")
param not_contains value = formatted (text "%") value (text "%")
param starts_with value = formatted [] value (text "%")
param ends_with value = formatted (text "%") value []
param eq value = plain value
param neq value = plain value
param gt value = plain value
param gte value = plain value
param lt value = plain value
param lte value = plain value
param like value = plain value
param in_list value = plain value
param not_in_list value = plain value

-- `_clauses` and `_params`
pub record Builder : Type 0 where
  pub clauses : List Text
  pub params : List Param

abbrev pub empty : Builder
empty = record { clauses = []; params = [] }

unfoldable pub handle_comparison : Text → Operator → Literal → Builder → Builder
unfolding field_name condition param
handle_comparison name op value b = record {
  clauses = b.clauses ++ (field_name name ++ condition op) ∷ [];
  params = b.params ++ param op value ∷ [];
}

-- `separator.join(clauses)`
unfoldable pub join : Text → List Text → Text
join separator [] = []
join separator (c ∷ []) = c
join separator (c ∷ d ∷ cs) = c ++ separator ++ join separator (d ∷ cs)

-- the branches of AND and OR, with the builder of `node.left`
unfoldable pub add_group : Text → Builder → Builder → Builder
unfolding join
add_group separator b inner = record {
  clauses = b.clauses ++ (text "(" ++ join separator inner.clauses ++ text ")") ∷ [];
  params = b.params ++ inner.params;
}

-- `_visit`. Of AND and OR the code visits `node.left` alone.
unfoldable pub visit : QueryNode → Builder → Builder
unfolding handle_comparison add_group
visit (comparison name op value) b = handle_comparison name op value b
visit (and_node left right) b = add_group (text " AND ") b (visit left empty)
visit (or_node left right) b = add_group (text " OR ") b (visit left empty)
visit (not_node node) b =
    let inner = visit node empty in
    record {
      clauses = (b.clauses ++ text "NOT (" ∷ []) ++ inner.clauses ++ text ")" ∷ [];
      params = b.params ++ inner.params;
    }

-- `" AND ".join(clauses) if clauses else "1=1"`
unfoldable pub where_clause : List Text → Text
unfolding join
where_clause [] = text "1=1"
where_clause (c ∷ cs) = join (text " AND ") (c ∷ cs)

unfoldable pub build : QueryNode → Text × List Param
unfolding visit where_clause
build node = let b = visit node empty in (where_clause b.clauses, b.params)
