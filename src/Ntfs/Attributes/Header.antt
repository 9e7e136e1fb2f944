-- ===== src/Ntfs/Attributes/Header.antt =====
-- ntfs/attributes.py: `parse_attribute_header` and the loop of `parse_attributes`.
use recoverx_cli.Prelude.{
  ℕ, zero, suc, ◌+◌, ◌-◌, ◌*◌, ◌/◌, ◌%◌, ◌^◌, ◌≤◌, ◌<◌, min, max, ◌≡◌, refl, sym, ap, ◌∙◌, subst,
  fun_ext, ◌≢◌, ◌↔◌, ◌⊎◌, inl, inr, Bool, true, false, not, ◌&&◌, ◌||◌, Option, none, some, List,
  [], ◌∷◌, ◌++◌, map, append-nil, append_assoc, arith, ltb, leb, ◌==◌, if◌then◌else◌, ltb→lt,
  lt→ltb, leb→le, ==_iff, Bool-cases, Option-cases, length, get_elem?, get_or, take, drop,
  replicate, concat, length-append, length-take, length-drop, length-replicate, length-map,
  take-zero, take-nil, drop-nil, take_of_length-le, take-append, take-take, take-replicate,
  replicate-add, drop-drop, take-add, get_elem?-append,
}
use recoverx_cli.Prelude.Int.{
  ℤ, pos, negsuc, pos_part, neg_part, sub_ℕ, ◌+ℤ◌, ◌-ℤ◌, ◌*ℤ◌, ◌≤ℤ◌, ◌<ℤ◌, leb_ℤ, ltb_ℤ, +ℤ_parts,
  -ℤ_parts, eq_of_parts, int_laws, pos-*, pos-+,
}
pub mod Order
use recoverx_cli.Utils.RawReader.{Bytes}
use recoverx_cli.Utils.Unpack.{byte, u16, u32, u64, slice, ◌>>=◌}
use recoverx_cli.Utils.Text.{Text}
use recoverx_cli.Ntfs.Runlist.Mapping.{RawRun}
use recoverx_cli.Ntfs.Attributes.{parse_runlist}

-- The fields of `NTFSAttribute`, less the name of its type, which is for display.
pub record AttributeHeader : Type 0 where
  pub attr_type : ℕ
  pub length : ℕ
  pub name_length : ℕ
  pub name_offset : ℕ
  pub name : Text
  pub flags : ℕ
  pub attr_id : ℕ

pub record Resident : Type 0 where
  pub value_length : ℕ
  pub value_offset : ℕ
  pub value : Bytes

pub record NonResident : Type 0 where
  pub starting_vcn : ℕ
  pub last_vcn : ℕ
  pub runlist_offset : ℕ
  pub compression_unit : ℕ
  pub allocated_size : ℕ
  pub real_size : ℕ
  pub initialised_size : ℕ
  pub data_runs : List RawRun

-- `ResidentAttribute` and `NonResidentAttribute`, by what they add
pub data Body : Type 0 where
  resident : Resident → Body
  non_resident : NonResident → Body

pub record Attribute : Type 0 where
  pub header : AttributeHeader
  pub body : Body

-- `none` is None, which the exceptions give too.
unfoldable pub parse_resident : Bytes → ℕ → Option Body
parse_resident input offset = if ltb (length input) (offset + 24) then none else do
  value_length ← u32 input (offset + 16)
  value_offset ← u16 input (offset + 20)
  some (
      resident (record {
        value_length = value_length;
        value_offset = value_offset;
        value = slice input (offset + value_offset) (offset + value_offset + value_length);
      }))

unfoldable pub parse_non_resident : Bytes → ℕ → Option Body
parse_non_resident input offset = if ltb (length input) (offset + 64) then none else do
  starting_vcn ← u64 input (offset + 16)
  last_vcn ← u64 input (offset + 24)
  runlist_offset ← u16 input (offset + 32)
  compression_unit ← byte input (offset + 34)
  allocated_size ← u64 input (offset + 40)
  real_size ← u64 input (offset + 48)
  initialised_size ← u64 input (offset + 56)
  data_runs ← parse_runlist input (offset + runlist_offset)
  some (
      non_resident (record {
        starting_vcn = starting_vcn;
        last_vcn = last_vcn;
        runlist_offset = runlist_offset;
        compression_unit = compression_unit;
        allocated_size = allocated_size;
        real_size = real_size;
        initialised_size = initialised_size;
        data_runs = data_runs;
      }))

-- `bytes.decode("utf-16-le", errors="replace")` of Python is a parameter.
module _ (decode_utf16 : Bytes → Text) where
  -- The name is read at `name_offset` of the data, not of the attribute.
  unfoldable pub attribute_name : Bytes → ℕ → ℕ → Text
  attribute_name input name_length name_offset =
      if ltb 0 name_length && ltb 0 name_offset
      then decode_utf16 (slice input name_offset (name_offset + name_length * 2))
      else []

  -- the `try` block, whose exceptions give None
  unfoldable pub read_header : Bytes → ℕ → ℕ → Option Attribute
  unfolding attribute_name parse_resident parse_non_resident
  read_header input offset attr_type = do
    size ← u32 input (offset + 4)
    kind ← byte input (offset + 8)
    name_length ← byte input (offset + 9)
    name_offset ← u16 input (offset + 10)
    flags ← u16 input (offset + 12)
    attr_id ← u16 input (offset + 14)
    body ←
        if kind / 128 % 2 == 1 then parse_non_resident input offset else parse_resident input offset
    some (record {
      header = record {
        attr_type = attr_type;
        length = size;
        name_length = name_length;
        name_offset = name_offset;
        name = attribute_name input name_length name_offset;
        flags = flags;
        attr_id = attr_id;
      };
      body = body;
    })

  unfoldable pub parse_attribute_header : Bytes → ℕ → Option Attribute
  unfolding read_header
  parse_attribute_header input offset = if ltb (length input) (offset + 4) then none else do
    attr_type ← u32 input offset
    if attr_type == 0xFFFFFFFF || ltb (length input) (offset + 16)
        then none
        else read_header input offset attr_type

  abbrev pub add_attribute : Attribute → Option (List Attribute) → Option (List Attribute)
  add_attribute a none = none
  add_attribute a (some attributes) = some (a ∷ attributes)

  -- The rounds of the loop; `none` is a loop that needs more of them.
  unfoldable pub attributes_from : ℕ → Bytes → ℕ → Option (List Attribute)
  unfolding parse_attribute_header
  attributes_from zero input offset = none
  attributes_from (suc fuel) input offset =
      let again = λ (a : Attribute).
        add_attribute a (attributes_from fuel input (offset + a.header.length)) in
      if ltb offset (length input)
      then elim (parse_attribute_header input offset) [
        | none ↦ some []
        | some a ↦ if a.header.length == 0 then some (a ∷ []) else again a
      ]
      else some []

  unfoldable pub parse_attributes : Bytes → Option (List Attribute)
  unfolding attributes_from
  parse_attributes input = attributes_from (length input + 1) input 0
