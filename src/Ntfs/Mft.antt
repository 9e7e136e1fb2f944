-- ===== src/Ntfs/Mft.antt =====
-- ntfs/mft.py: the records of the master file table.
use recoverx_cli.Prelude.{
  ℕ, zero, suc, ◌+◌, ◌-◌, ◌*◌, ◌/◌, ◌%◌, ◌^◌, ◌≤◌, ◌<◌, min, max, ◌≡◌, refl, sym, ap, ◌∙◌, subst,
  fun_ext, ◌≢◌, ◌↔◌, ◌⊎◌, inl, inr, Bool, true, false, not, ◌&&◌, ◌||◌, Option, none, some, List,
  [], ◌∷◌, ◌++◌, map, append-nil, append_assoc, arith, ltb, leb, ◌==◌, if◌then◌else◌, ltb→lt,
  lt→ltb, leb→le, ==_iff, Bool-cases, Option-cases, length, get_elem?, get_or, take, drop,
  replicate, concat, length-append, length-take, length-drop, length-replicate, length-map,
  take-zero, take-nil, drop-nil, take_of_length-le, take-append, take-take, take-replicate,
  replicate-add, drop-drop, take-add, get_elem?-append,
}
use recoverx_cli.Prelude.Int.{
  ℤ, pos, negsuc, pos_part, neg_part, sub_ℕ, ◌+ℤ◌, ◌-ℤ◌, ◌*ℤ◌, ◌≤ℤ◌, ◌<ℤ◌, leb_ℤ, ltb_ℤ, +ℤ_parts,
  -ℤ_parts, eq_of_parts, int_laws, pos-*, pos-+,
}
pub mod Fixups
use recoverx_cli.Utils.RawReader.{Bytes, read_bytes}
use recoverx_cli.Utils.Unpack.{byte, u16, u32, u64, slice, ◌>>=◌}
use recoverx_cli.Utils.Text.{Text, text, text_eq}
use recoverx_cli.Ntfs.Attributes.Header.{
  Attribute, Body, resident, non_resident, Resident, NonResident, parse_attributes,
}

-- The signature of a header that is parsed is always FILE.
pub record MftRecordHeader : Type 0 where
  pub fixup_offset : ℕ
  pub fixup_count : ℕ
  pub log_sequence_number : ℕ
  pub sequence_number : ℕ
  pub link_count : ℕ
  pub attrs_offset : ℕ
  pub flags : ℕ
  pub used_size : ℕ
  pub allocated_size : ℕ
  pub mft_record_number : ℕ

abbrev pub in_use : MftRecordHeader → Bool
in_use header = header.flags % 2 == 1

abbrev pub is_directory : MftRecordHeader → Bool
is_directory header = header.flags / 2 % 2 == 1

abbrev pub is_deleted : MftRecordHeader → Bool
is_deleted header = not (in_use header)

abbrev pub file_signature : Text
file_signature = text "FILE"

-- the `try` block; its exceptions give None
unfoldable pub read_record_header : Bytes → ℕ → Option MftRecordHeader
read_record_header input offset = do
  fixup_offset ← u16 input (offset + 4)
  fixup_count ← u16 input (offset + 6)
  lsn ← u64 input (offset + 8)
  seq ← u16 input (offset + 16)
  link_count ← u16 input (offset + 18)
  attrs_offset ← u16 input (offset + 20)
  flags ← u16 input (offset + 22)
  used_size ← u32 input (offset + 24)
  allocated_size ← u32 input (offset + 28)
  mft_record_number ← u32 input (offset + 44)
  some (record {
    fixup_offset = fixup_offset;
    fixup_count = fixup_count;
    log_sequence_number = lsn;
    sequence_number = seq;
    link_count = link_count;
    attrs_offset = attrs_offset;
    flags = flags;
    used_size = used_size;
    allocated_size = allocated_size;
    mft_record_number = mft_record_number;
  })

unfoldable pub parse_mft_record_header : Bytes → ℕ → Option MftRecordHeader
unfolding read_record_header
parse_mft_record_header input offset =
    if ltb (length input) (offset + 48)
    then none
    else if not (text_eq (slice input offset (offset + 4)) file_signature)
    then none
    else read_record_header input offset

-- `unpack_from(f"<{count}H", data, offset)`; `none` is its error
unfoldable pub fixup_values : ℕ → Bytes → ℕ → Option (List ℕ)
fixup_values zero input offset = some []
fixup_values (suc count) input offset = do
  value ← u16 input offset
  rest ← fixup_values count input (offset + 2)
  some (value ∷ rest)

-- `pack_into("<H", data_arr, offset, value)`
unfoldable pub pack_u16 : Bytes → ℕ → ℕ → Bytes
pack_u16 input offset value =
    take offset input ++ (value % 256 ∷ value / 256 % 256 ∷ drop (offset + 2) input)

-- a round of the loop
unfoldable pub fix_sector : ℕ → ℕ → Bytes → Bytes
fix_sector value i input =
    if ltb (i * 512 - 2) (length input - 1) then pack_u16 input (i * 512 - 2) value else input

-- the loop on the values from number `i` on
unfoldable pub fix_sectors : List ℕ → ℕ → Bytes → Bytes
fix_sectors [] i input = input
fix_sectors (value ∷ values) i input = fix_sectors values (i + 1) (fix_sector value i input)

abbrev pub fix_with : Option (List ℕ) → Bytes → Bytes
fix_with none input = input
fix_with (some []) input = input
fix_with (some (first ∷ values)) input = fix_sectors values 1 input

unfoldable pub apply_fixups : Bytes → MftRecordHeader → Bytes
unfolding fixup_values fix_sectors
apply_fixups input header =
    if header.fixup_offset == 0 || header.fixup_count == 0
    then input
    else fix_with (fixup_values header.fixup_count input header.fixup_offset) input

-- A time as the microseconds from 1601 on; `none` is None, also behind the year 9999.
unfoldable pub timestamp : ℕ → Option ℕ
timestamp ts =
    if ts == 0 then none else if leb (ts / 10) 265_046_774_399_999_999 then some (ts / 10) else none

-- The fields that the parser fills; the others keep their defaults.
pub record StandardInformation : Type 0 where
  pub created : Option ℕ
  pub modified : Option ℕ
  pub mft_modified : Option ℕ
  pub accessed : Option ℕ
  pub flags : ℕ

pub record FileNameAttribute : Type 0 where
  pub parent_mft : ℕ
  pub parent_seq : ℕ
  pub created : Option ℕ
  pub modified : Option ℕ
  pub mft_modified : Option ℕ
  pub accessed : Option ℕ
  pub allocated_size : ℕ
  pub real_size : ℕ
  pub flags : ℕ
  pub name_length : ℕ
  pub name_type : ℕ
  pub name : Text

pub record MftRecord : Type 0 where
  pub header : MftRecordHeader
  pub attributes : List Attribute
  pub standard_info : Option StandardInformation
  pub file_name : Option FileNameAttribute
  pub data_resident : Bytes
  pub data_non_resident : Option NonResident
  pub raw_data : Bytes
  pub is_resident : Bool

unfoldable pub read_standard_info : Bytes → Option StandardInformation
unfolding timestamp
read_standard_info value = do
  created ← u64 value 0
  modified ← u64 value 8
  mft_modified ← u64 value 16
  accessed ← u64 value 24
  flags ← u32 value 32
  some (record {
    created = timestamp created;
    modified = timestamp modified;
    mft_modified = timestamp mft_modified;
    accessed = timestamp accessed;
    flags = flags;
  })

-- `setattr` where the `try` block does not raise
abbrev pub set_standard_info : Option StandardInformation → MftRecord → MftRecord
set_standard_info none record_ = record_
set_standard_info (some info) record_ = record record_ { standard_info = some info }

abbrev pub set_file_name : Option FileNameAttribute → MftRecord → MftRecord
set_file_name none record_ = record_
set_file_name (some name) record_ = record record_ { file_name = some name }

module _ (decode_utf16 : Bytes → Text) where
  unfoldable pub read_file_name : Bytes → Option FileNameAttribute
  unfolding timestamp
  read_file_name value = do
    parent_ref ← u64 value 0
    name_length ← byte value 64
    name_type ← byte value 65
    created ← u64 value 8
    modified ← u64 value 16
    mft_modified ← u64 value 24
    accessed ← u64 value 32
    allocated_size ← u64 value 40
    real_size ← u64 value 48
    flags ← u32 value 56
    some (record {
      parent_mft = parent_ref % 2 ^ 32;
      parent_seq = parent_ref / 2 ^ 48;
      created = timestamp created;
      modified = timestamp modified;
      mft_modified = timestamp mft_modified;
      accessed = timestamp accessed;
      allocated_size = allocated_size;
      real_size = real_size;
      flags = flags;
      name_length = name_length;
      name_type = name_type;
      name = decode_utf16 (slice value 66 (66 + name_length * 2));
    })

  abbrev pub use_body : ℕ → Body → MftRecord → MftRecord
  use_body attr_type (resident r) record_ =
      if attr_type == 0x10
      then (if leb 72 (length r.value)
          then set_standard_info (read_standard_info r.value) record_
          else record_)
      else if attr_type == 0x30
      then (if leb 68 (length r.value)
          then set_file_name (read_file_name r.value) record_
          else record_)
      else if attr_type == 0x80
      then record record_ { data_resident = r.value; is_resident = true }
      else record_
  use_body attr_type (non_resident r) record_ =
      if attr_type == 0x80
      then record record_ { data_non_resident = some r; is_resident = false }
      else record_

  -- the loop over the attributes
  unfoldable pub use_attributes : List Attribute → MftRecord → MftRecord
  unfolding read_file_name read_standard_info
  use_attributes [] record_ = record_
  use_attributes (a ∷ attributes) record_ =
      use_attributes attributes (use_body a.header.attr_type a.body record_)

  -- `parse_attributes` always ends.
  unfoldable pub parse_mft_record : Bytes → Option MftRecord
  unfolding use_attributes parse_mft_record_header apply_fixups
  parse_mft_record input = do
    header ← parse_mft_record_header input 0
    let applied = apply_fixups input header
    attributes ← parse_attributes decode_utf16 (slice applied header.attrs_offset header.used_size)
    some (
        use_attributes attributes (record {
          header = header;
          attributes = attributes;
          standard_info = none;
          file_name = none;
          data_resident = [];
          data_non_resident = none;
          raw_data = applied;
          is_resident = true;
        }))

  unfoldable pub read_mft_record : Bytes → ℕ → ℕ → Option MftRecord
  unfolding parse_mft_record read_bytes
  read_mft_record image byte_offset record_size =
      if ltb (length image) (byte_offset + record_size)
      then none
      else if ltb (length (read_bytes image byte_offset record_size)) record_size
      then none
      else parse_mft_record (read_bytes image byte_offset record_size)
