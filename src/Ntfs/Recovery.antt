-- ===== src/Ntfs/Recovery.antt =====
-- ntfs/recovery.py: the walk over the master file table, the kinds of files in it, and what can be
-- recovered of a file. The reader is open, and `image` is the file behind it.
use recoverx_cli.Prelude.{
  ℕ, zero, suc, ◌+◌, ◌-◌, ◌*◌, ◌/◌, ◌%◌, ◌^◌, ◌≤◌, ◌<◌, min, max, ◌≡◌, refl, sym, ap, ◌∙◌, subst,
  fun_ext, ◌≢◌, ◌↔◌, ◌⊎◌, inl, inr, Bool, true, false, not, ◌&&◌, ◌||◌, Option, none, some, List,
  [], ◌∷◌, ◌++◌, map, append-nil, append_assoc, arith, ltb, leb, ◌==◌, if◌then◌else◌, ltb→lt,
  lt→ltb, leb→le, ==_iff, Bool-cases, Option-cases, length, get_elem?, get_or, take, drop,
  replicate, concat, length-append, length-take, length-drop, length-replicate, length-map,
  take-zero, take-nil, drop-nil, take_of_length-le, take-append, take-take, take-replicate,
  replicate-add, drop-drop, take-add, get_elem?-append,
}
use recoverx_cli.Prelude.Int.{
  ℤ, pos, negsuc, pos_part, neg_part, sub_ℕ, ◌+ℤ◌, ◌-ℤ◌, ◌*ℤ◌, ◌≤ℤ◌, ◌<ℤ◌, leb_ℤ, ltb_ℤ, +ℤ_parts,
  -ℤ_parts, eq_of_parts, int_laws, pos-*, pos-+,
}
pub mod Slots
pub mod Files
pub mod Classified
use recoverx_cli.Utils.RawReader.{Bytes, read_bytes, ReadError, Result, ok, raise}
use recoverx_cli.Utils.Unpack.{slice}
use recoverx_cli.Utils.Text.{Text, text_eq}
use recoverx_cli.Ntfs.BootSector.{
  NtfsBootSector, cluster_size, bytes_per_file_record, mft_byte_offset,
}
use recoverx_cli.Ntfs.Attributes.Header.{NonResident}
use recoverx_cli.Ntfs.Mft.{
  MftRecord, FileNameAttribute, StandardInformation, is_directory, is_deleted, file_signature,
  parse_mft_record,
}
use recoverx_cli.Ntfs.Runlist.Mapping.{RawRun, resolve_runlist}
use recoverx_cli.Ntfs.Runlist.Executor.{execute, execute_sparse_aware, estimate_recoverable_bytes}
use recoverx_cli.Ntfs.Runlist.Validation.{
  RunlistIssue, Severity, error, warning, validate_runlist, is_sparse_runlist,
}

-- The records of a walk, or Python's ZeroDivisionError.
pub data Walk : Type 0 where
  records : List MftRecord → Walk
  zero_division : Walk

-- A round of the loop that does not break: what it appends.
module _ (decode_utf16 : Bytes → Text) where
  unfoldable pub slot : Bytes → List MftRecord
  unfolding parse_mft_record
  slot input =
      if not (text_eq (slice input 0 4) file_signature)
      then []
      else elim (parse_mft_record decode_utf16 input) [ none ↦ [] | some found ↦ found ∷ [] ]

  -- the rounds from number `i` on; `[]` in place of the rest is a `break`
  unfoldable pub walk_from : Bytes → ℕ → ℕ → ℕ → ℕ → List MftRecord
  unfolding slot read_bytes
  walk_from image mft_offset record_size i zero = []
  walk_from image mft_offset record_size i (suc rounds) =
      let rest = walk_from image mft_offset record_size (i + 1) rounds in
      let rec_offset = mft_offset + i * record_size in
      let input = read_bytes image rec_offset record_size in
      if ltb (length image) (rec_offset + record_size) || ltb (length input) record_size
      then []
      else slot input ++ rest

  -- `max_records or (size - mft_offset) // record_size`, where no record at all is a negative number too
  unfoldable pub walk_mft : Bytes → NtfsBootSector → ℕ → Walk
  unfolding walk_from bytes_per_file_record mft_byte_offset
  walk_mft image bpb max_records =
      let record_size = bytes_per_file_record bpb in
      let mft_offset = mft_byte_offset bpb in
      let total_records =
        if max_records == 0 then (length image - mft_offset) / record_size else max_records in
      if max_records == 0 && record_size == 0
      then zero_division
      else records (walk_from image mft_offset record_size 0 (min total_records 100_000))

abbrev pub name : MftRecord → Text
name entry = elim entry.file_name [ none ↦ [] | some file_name ↦ file_name.name ]

abbrev pub has_non_resident_data : MftRecord → Bool
has_non_resident_data entry = elim entry.data_non_resident [ none ↦ false | some nr ↦ true ]

abbrev pub is_fragmented : MftRecord → Bool
is_fragmented entry = elim entry.data_non_resident [
  | none ↦ false
  | some nr ↦ ltb 1 (length nr.data_runs)
]

unfoldable pub select : (MftRecord → Bool) → List MftRecord → List MftRecord
select test [] = []
select test (entry ∷ entries) =
    let rest = select test entries in if test entry then entry ∷ rest else rest

abbrev pub select_from : (MftRecord → Bool) → Walk → Walk
select_from test (records entries) = records (select test entries)
select_from test zero_division = zero_division

abbrev pub is_file : MftRecord → Bool
is_file entry = not (is_directory entry.header)

abbrev has_bytes : Bytes → Bool
has_bytes [] = false
has_bytes (b ∷ rest) = true

module _ (decode_utf16 : Bytes → Text) (image : Bytes) (bpb : NtfsBootSector)
    (max_records : ℕ) where
  unfoldable pub find_deleted_entries : Walk
  unfolding walk_mft select
  find_deleted_entries =
      select_from (λ r. is_deleted r.header && is_file r)
        (walk_mft decode_utf16 image bpb max_records)

  unfoldable pub find_resident_files : Walk
  unfolding walk_mft select
  find_resident_files =
      select_from (λ r. r.is_resident && (has_bytes r.data_resident && is_file r))
        (walk_mft decode_utf16 image bpb max_records)

  unfoldable pub find_non_resident_files : Walk
  unfolding walk_mft select
  find_non_resident_files =
      select_from (λ r. has_non_resident_data r && is_file r)
        (walk_mft decode_utf16 image bpb max_records)

  unfoldable pub find_fragmented_files : Walk
  unfolding walk_mft select
  find_fragmented_files =
      select_from (λ r. is_fragmented r && is_file r) (walk_mft decode_utf16 image bpb max_records)

  unfoldable pub find_deleted_non_resident : Walk
  unfolding walk_mft select
  find_deleted_non_resident =
      select_from (λ r. is_deleted r.header && (has_non_resident_data r && is_file r))
        (walk_mft decode_utf16 image bpb max_records)

pub data Recoverability : Type 0 where
  not_applicable corrupted partially_recoverable recoverable : Recoverability

-- `any(i.severity == "error" for i in issues)`
abbrev pub is_error : Severity → Bool
is_error error = true
is_error warning = false

unfoldable pub has_errors : List RunlistIssue → Bool
has_errors [] = false
has_errors (i ∷ issues) = is_error i.severity || has_errors issues

-- the end of `classify_recoverability`
unfoldable pub classify_bytes : ℕ → ℕ → Recoverability
classify_bytes enough lost =
    if ltb 0 lost && ltb 0 enough
    then partially_recoverable
    else if enough == 0
    then corrupted
    else recoverable

-- `last_vcn - starting_vcn + 1`, where a number that is not positive is 0
abbrev pub total_clusters : NonResident → ℕ
total_clusters nr = nr.last_vcn + 1 - nr.starting_vcn

unfoldable pub classify_runs : ℕ → ℕ → NonResident → Recoverability
unfolding has_errors classify_bytes
classify_runs size cluster_bytes nr =
    let resolved = resolve_runlist nr.data_runs in
    let issues = validate_runlist resolved (total_clusters nr) (size / cluster_bytes) in
    let estimate = estimate_recoverable_bytes size cluster_bytes resolved nr.real_size in
    if has_errors issues then corrupted else classify_bytes estimate.1 estimate.2

-- `none` is ZeroDivisionError.
unfoldable pub classify_recoverability : Bytes → NtfsBootSector → MftRecord → Option Recoverability
unfolding classify_runs cluster_size
classify_recoverability image bpb entry = elim entry.data_non_resident [
  | none ↦ some not_applicable
  | some nr ↦
      if cluster_size bpb == 0
      then none
      else some (classify_runs (length image) (cluster_size bpb) nr)
]
