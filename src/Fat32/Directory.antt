-- ===== src/Fat32/Directory.antt =====
-- fat32/directory.py: the entries of a directory.
use recoverx_cli.Prelude.{
  ℕ, zero, suc, ◌+◌, ◌-◌, ◌*◌, ◌/◌, ◌%◌, ◌^◌, ◌≤◌, ◌<◌, min, max, ◌≡◌, refl, sym, ap, ◌∙◌, subst,
  fun_ext, ◌≢◌, ◌↔◌, ◌⊎◌, inl, inr, Bool, true, false, not, ◌&&◌, ◌||◌, Option, none, some, List,
  [], ◌∷◌, ◌++◌, map, append-nil, append_assoc, arith, ltb, leb, ◌==◌, if◌then◌else◌, ltb→lt,
  lt→ltb, leb→le, ==_iff, Bool-cases, Option-cases, length, get_elem?, get_or, take, drop,
  replicate, concat, length-append, length-take, length-drop, length-replicate, length-map,
  take-zero, take-nil, drop-nil, take_of_length-le, take-append, take-take, take-replicate,
  replicate-add, drop-drop, take-add, get_elem?-append,
}
use recoverx_cli.Prelude.Int.{
  ℤ, pos, negsuc, pos_part, neg_part, sub_ℕ, ◌+ℤ◌, ◌-ℤ◌, ◌*ℤ◌, ◌≤ℤ◌, ◌<ℤ◌, leb_ℤ, ltb_ℤ, +ℤ_parts,
  -ℤ_parts, eq_of_parts, int_laws, pos-*, pos-+,
}
pub mod Deleted
pub mod Tree
use recoverx_cli.Utils.RawReader.{Bytes}
use recoverx_cli.Utils.Unpack.{slice}
use recoverx_cli.Utils.Text.{Text, text, text_eq, decode_ascii, strip, rstrip, rstrip_char}
use recoverx_cli.Fat32.BootSector.{Fat32BootSector}
use recoverx_cli.Fat32.FatTable.{read_cluster_chain, read_cluster_data, contains}
use recoverx_cli.Fat32.DirEntry.{
  FatTimestamp, FatAttributes, parse_timestamp, parse_date_only, parse_attributes,
}

pub record FatDirEntry : Type 0 where
  pub name : Text
  pub extension : Text
  pub short_name : Text
  pub long_name : Text
  pub attributes : FatAttributes
  pub deleted : Bool
  pub is_directory : Bool
  pub is_volume_label : Bool
  pub start_cluster : ℕ
  pub file_size : ℕ
  pub created : FatTimestamp
  pub last_accessed : FatTimestamp
  pub last_modified : FatTimestamp
  pub offset_in_image : ℕ
  pub original_raw : Bytes

-- `first or second`
abbrev pub or_text : Text → Text → Text
or_text [] second = second
or_text (c ∷ s) second = c ∷ s

unfoldable pub full_name : FatDirEntry → Text
full_name entry = or_text entry.long_name entry.short_name

unfoldable pub parse_short_name : Bytes → Bytes → Text × Text
unfolding decode_ascii rstrip rstrip_char
parse_short_name raw_name raw_ext = (
  rstrip_char 0xFF (rstrip (decode_ascii raw_name)),
  rstrip_char 0xFF (rstrip (decode_ascii raw_ext)),
)

-- the loop over the code units of one entry's name
unfoldable pub lfn_chars : Bytes → Text
lfn_chars [] = []
lfn_chars (low ∷ []) = []
lfn_chars (low ∷ (high ∷ raw)) =
    let code = low + 256 * high in
    let rest = lfn_chars raw in
    if code == 0xFFFF || code == 0
    then []
    else if leb 0x20 code && leb code 0xFFFD
    then code ∷ rest
    else rest

unfoldable pub lfn_entry : Bytes → Text
unfolding lfn_chars slice
lfn_entry entry =
    if ltb (length entry) 32
    then []
    else lfn_chars (slice entry 1 11 ++ (slice entry 14 26 ++ slice entry 28 32))

-- the entries from the last to the first
unfoldable pub lfn_reversed : List Bytes → Text
unfolding lfn_entry
lfn_reversed [] = []
lfn_reversed (entry ∷ entries) = lfn_reversed entries ++ lfn_entry entry

unfoldable pub parse_lfn_entries : List Bytes → Text
unfolding lfn_reversed strip rstrip_char
parse_lfn_entries entries = strip (rstrip_char 0xFF (rstrip_char 0 (lfn_reversed entries)))

-- An entry has 32 bytes, so that the reads of it do not fail.
abbrev pub entry_byte : Bytes → ℕ → ℕ
entry_byte entry i = get_or entry i 0

abbrev pub entry_u16 : Bytes → ℕ → ℕ
entry_u16 entry i = entry_byte entry i + 256 * entry_byte entry (i + 1)

abbrev pub is_deleted_entry : Bytes → Bool
is_deleted_entry entry = entry_byte entry 0 == 0xE5

unfoldable pub raw_name_bytes : Bytes → Bytes
unfolding slice
raw_name_bytes entry = if is_deleted_entry entry then 0x3F ∷ slice entry 1 8 else slice entry 0 8

-- the defaults of `FATTimestamp`
abbrev pub no_timestamp : FatTimestamp
no_timestamp = record { year = 0; month = 0; day = 0; hour = 0; minute = 0; second = 0 }

unfoldable pub label_entry : ℕ → Bytes → FatDirEntry
unfolding parse_attributes decode_ascii rstrip raw_name_bytes
label_entry offset entry =
    let label = rstrip (decode_ascii (raw_name_bytes entry)) in
    record {
      name = label;
      extension = [];
      short_name = label;
      long_name = [];
      attributes = parse_attributes (entry_byte entry 11);
      deleted = false;
      is_directory = false;
      is_volume_label = true;
      start_cluster = 0;
      file_size = 0;
      created = no_timestamp;
      last_accessed = no_timestamp;
      last_modified = no_timestamp;
      offset_in_image = offset;
      original_raw = entry;
    }

-- `(name + "." + ext).rstrip(".") if ext else name`
abbrev pub join_extension : Text → Text → Text
join_extension name [] = name
join_extension name (c ∷ ext) = rstrip_char 46 (name ++ (46 ∷ (c ∷ ext)))

unfoldable pub file_entry : List Bytes → ℕ → Bytes → FatDirEntry
unfolding parse_short_name parse_lfn_entries parse_attributes parse_timestamp parse_date_only
    raw_name_bytes
file_entry lfn_buffer offset entry =
    let names = parse_short_name (raw_name_bytes entry) (slice entry 8 11) in
    let short_name = join_extension names.0 names.1 in
    let attributes = parse_attributes (entry_byte entry 11) in
    record {
      name = short_name;
      extension = names.1;
      short_name = short_name;
      long_name = parse_lfn_entries lfn_buffer;
      attributes = attributes;
      deleted = is_deleted_entry entry;
      is_directory = attributes.subdirectory || entry_byte entry 0 == 46;
      is_volume_label = false;
      start_cluster = entry_u16 entry 20 * 2 ^ 16 + entry_u16 entry 26;
      file_size = entry_u16 entry 28 + 2 ^ 16 * entry_u16 entry 30;
      created = parse_timestamp (entry_u16 entry 16) (entry_u16 entry 14);
      last_accessed = parse_date_only (entry_u16 entry 18);
      last_modified = parse_timestamp (entry_u16 entry 24) (entry_u16 entry 22);
      offset_in_image = offset;
      original_raw = entry;
    }

-- The loop, for the number of whole entries that are left, at position `i`.
unfoldable pub entries_from : ℕ → Bytes → ℕ → ℕ → List Bytes → List FatDirEntry
unfolding slice
entries_from zero input base_offset i lfn_buffer = []
entries_from (suc entries) input base_offset i lfn_buffer =
    let entry = slice input i (i + 32) in
    let is_lfn = entry_byte entry 11 == 0x0F in
    let is_label = (parse_attributes (entry_byte entry 11)).volume_label in
    let next = if is_lfn then lfn_buffer ++ entry ∷ [] else [] in
    let rest = entries_from entries input base_offset (i + 32) next in
    if entry_byte entry 0 == 0
    then []
    else if is_lfn
    then rest
    else if is_label
    then label_entry (base_offset + i) entry ∷ rest
    else file_entry lfn_buffer (base_offset + i) entry ∷ rest

unfoldable pub parse_directory_entries : Bytes → ℕ → List FatDirEntry
unfolding entries_from
parse_directory_entries input base_offset = entries_from (length input / 32) input base_offset 0 []

-- the loop over the chain, which a size that is not 0 ends
unfoldable pub directory_data : Bytes → Fat32BootSector → ℕ → Bytes → List ℕ → Bytes
unfolding read_cluster_data
directory_data image bpb max_size input [] = input
directory_data image bpb max_size input (c ∷ chain) =
    let more = input ++ read_cluster_data image bpb c in
    let rest = directory_data image bpb max_size more chain in
    if not (max_size == 0) && leb max_size (length more) then more else rest

abbrev pub entries_of_chain : Bytes → Fat32BootSector → ℕ → List ℕ → List FatDirEntry
entries_of_chain image bpb max_size [] = []
entries_of_chain image bpb max_size (c ∷ chain) =
    parse_directory_entries (directory_data image bpb max_size [] (c ∷ chain)) 0

unfoldable pub read_directory : Bytes → Fat32BootSector → ℕ → ℕ → List FatDirEntry
unfolding parse_directory_entries directory_data read_cluster_chain
read_directory image bpb cluster max_size =
    entries_of_chain image bpb max_size (read_cluster_chain image bpb cluster 0).0
