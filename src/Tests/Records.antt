-- ===== src/Tests/Records.antt =====
-- Records of the master file table, and files of it.
use recoverx_cli.Prelude.{
  ℕ, zero, suc, ◌<◌, ◌≡◌, refl, true, false, none, some, List, [], ◌∷◌, ◌++◌, arith, length,
  get_elem?, replicate,
}
use recoverx_cli.Prelude.Int.{ℤ, pos, negsuc, ◌+ℤ◌, ◌-ℤ◌, ◌*ℤ◌}
use recoverx_cli.Utils.RawReader.{Bytes, read_bytes, seek_read}
use recoverx_cli.Utils.Unpack.{uint, slice}
use recoverx_cli.Utils.Text.{Text, text, text_eq, hex_upper, hex_digit}
use recoverx_cli.Ntfs.BootSector.{
  NtfsBootSector, cluster_size, shifted, bytes_per_file_record, mft_byte_offset, signed_count,
  serial_text, read_fields, parse_boot_sector,
}
use recoverx_cli.Ntfs.BootSector.RecordSize.{AreBytes}
use recoverx_cli.Ntfs.Runlist.Mapping.{resolve_runlist, resolve_from, resolve_run, next_lcn}
use recoverx_cli.Ntfs.Runlist.Executor.{estimate_recoverable_bytes, estimate_runs, estimate_run}
use recoverx_cli.Ntfs.Runlist.Validation.{
  validate_runlist, validate_from, run_issues, next_vcn_end, next_seen, lcn_issues, lcn_end,
  overlaps, last_vcn_end,
}
use recoverx_cli.Ntfs.Runlist.Reading.{file_bytes, cluster_bytes}
use recoverx_cli.Ntfs.Runlist.Translation.{layout, run_layout, row}
use recoverx_cli.Ntfs.Attributes.{parse_runlist, parse_from, parse_entry, read_data_run, signed}
use recoverx_cli.Ntfs.Attributes.Header.{
  Attribute, NonResident, parse_resident, parse_non_resident, attribute_name, read_header,
  parse_attribute_header, attributes_from, parse_attributes,
}
use recoverx_cli.Ntfs.Attributes.Header.Order.{AreConsecutive, parse_attributes-AreConsecutive}
use recoverx_cli.Ntfs.Mft.{
  MftRecordHeader, MftRecord, fixup_values, pack_u16, fix_sector, fix_sectors, apply_fixups,
  read_record_header, parse_mft_record_header, use_attributes, parse_mft_record,
}
use recoverx_cli.Ntfs.Mft.Fixups.{ending, stored_value, get_elem?-apply_fixups}
use recoverx_cli.Ntfs.Recovery.{
  records, zero_division, slot, walk_from, walk_mft, recoverable, has_errors, classify_bytes,
  classify_runs, classify_recoverability,
}
use recoverx_cli.Ntfs.Recovery.Slots.{table_slots, walk_mft-table_slots, walk_mft-zero_division}
use recoverx_cli.Ntfs.Recovery.Files.{recovered, recover_non_resident_file}
use recoverx_cli.Ntfs.Recovery.Classified.{recover_non_resident_file-recoverable}

-- Decoding and hashing that keep the bytes.
abbrev same_bytes : Bytes → Text
same_bytes bytes = bytes

program : Unit {0}
unfolding uint slice text_eq read_bytes seek_read parse_attributes attributes_from
    parse_attribute_header read_header attribute_name parse_resident parse_non_resident
    parse_runlist parse_from parse_entry read_data_run signed apply_fixups fixup_values fix_sectors
    fix_sector pack_u16 ending stored_value parse_mft_record parse_mft_record_header
    read_record_header use_attributes walk_mft walk_from slot mft_byte_offset bytes_per_file_record
    cluster_size shifted table_slots parse_boot_sector read_fields signed_count serial_text
    hex_upper hex_digit
program = tt

-- an array of three values at 48, for the sectors of 1024 bytes
abbrev header : MftRecordHeader
header = record {
  fixup_offset = 48;
  fixup_count = 3;
  log_sequence_number = 0;
  sequence_number = 1;
  link_count = 1;
  attrs_offset = 56;
  flags = 1;
  used_size = 56;
  allocated_size = 1024;
  mft_record_number = 5;
}

abbrev fixed_record : Bytes
fixed_record = replicate 48 0 ++ (1 ∷ 0 ∷ 0xAA ∷ 0xBB ∷ 0xCC ∷ 0xDD ∷ []) ++ replicate 970 1

get_elem?-apply_fixups_example :
    (length (apply_fixups fixed_record header) ≡ 1024)
    × (get_elem? (apply_fixups fixed_record header) 511 ≡ some 0xBB)
unfolding program
get_elem?-apply_fixups_example =
    get_elem?-apply_fixups fixed_record header 511 (omega arith) (omega arith)

-- a resident attribute of 24 bytes and a value of 2, and the end mark
abbrev attribute_bytes : Bytes
attribute_bytes =
    (0x10 ∷ 0 ∷ 0 ∷ 0 ∷ 26 ∷ 0 ∷ 0 ∷ 0 ∷ 0 ∷ 0 ∷ 0 ∷ 0 ∷ 0 ∷ 0 ∷ 7 ∷ 0 ∷ [])
    ++ ((2 ∷ 0 ∷ 0 ∷ 0 ∷ 24 ∷ 0 ∷ 0 ∷ 0 ∷ 5 ∷ 6 ∷ []) ++ (0xFF ∷ 0xFF ∷ 0xFF ∷ 0xFF ∷ []))

parse_attributes-AreConsecutive_example :
    (attributes : List Attribute) × (parse_attributes same_bytes attribute_bytes ≡ some attributes)
    × AreConsecutive same_bytes attribute_bytes 0 attributes
parse_attributes-AreConsecutive_example = parse_attributes-AreConsecutive same_bytes attribute_bytes

abbrev some_bpb : ℕ → ℤ → NtfsBootSector
some_bpb mft_cluster clusters = record {
  bytes_per_sector = 2;
  sectors_per_cluster = 2;
  total_sectors = 8;
  mft_cluster = mft_cluster;
  mft_mirror_cluster = 0;
  clusters_per_file_record = clusters;
  clusters_per_index_block = pos 1;
  volume_serial = [];
  media_descriptor = 0xF8;
  signature_valid = true;
}

-- three slots of four bytes without a record
abbrev small_image : Bytes
small_image = 1 ∷ 2 ∷ 3 ∷ 4 ∷ 70 ∷ 73 ∷ 76 ∷ 69 ∷ 9 ∷ 10 ∷ 11 ∷ 12 ∷ 13 ∷ []

walk_mft-table_slots_example : walk_mft same_bytes small_image (some_bpb 1 (pos 0)) 0 ≡ records []
unfolding program
walk_mft-table_slots_example =
    walk_mft-table_slots same_bytes small_image (some_bpb 1 (pos 0)) (omega arith)

-- a boot sector with the byte 0xF6 at 64
abbrev end_mark : Bytes
end_mark = 0x55 ∷ 0xAA ∷ []

abbrev behind_size : Bytes
behind_size = replicate 445 2 ++ end_mark

abbrev from_size : Bytes
from_size = (0xF6 ∷ []) ++ behind_size

abbrev behind_name : Bytes
behind_name = replicate 53 2 ++ from_size

abbrev from_name : Bytes
from_name = text "NTFS    " ++ behind_name

abbrev sector : Bytes
sector = (2 ∷ 2 ∷ 2 ∷ []) ++ from_name

abbrev sector_bpb : NtfsBootSector
sector_bpb = record {
  bytes_per_sector = 514;
  sectors_per_cluster = 2;
  total_sectors = 0x0202020202020202;
  mft_cluster = 0x0202020202020202;
  mft_mirror_cluster = 0x0202020202020202;
  clusters_per_file_record = negsuc 117;
  clusters_per_index_block = pos 2;
  volume_serial = text "02020202-0202-0202";
  media_descriptor = 2;
  signature_valid = true;
}

parses_sector : parse_boot_sector sector ≡ some sector_bpb
unfolding program
parses_sector = refl

AreBytes-append : (xs ys : Bytes) → AreBytes xs → AreBytes ys → AreBytes (xs ++ ys)
AreBytes-append [] ys h k = k
AreBytes-append (x ∷ xs) ys h k = (h.0, AreBytes-append xs ys h.1 k)

AreBytes-replicate : (n b : ℕ) → b < 256 → AreBytes (replicate n b)
AreBytes-replicate zero b h = tt
AreBytes-replicate (suc n) b h = (h, AreBytes-replicate n b h)

sector-AreBytes : AreBytes sector
sector-AreBytes =
    AreBytes-append (2 ∷ 2 ∷ 2 ∷ []) from_name (omega arith, (omega arith, (omega arith, tt)))
      (AreBytes-append (text "NTFS    ") behind_name
        (
          omega arith,
          (
            omega arith,
            (
              omega arith,
              (omega arith, (omega arith, (omega arith, (omega arith, (omega arith, tt))))),
            ),
          ),
        )
        (AreBytes-append (replicate 53 2) from_size (AreBytes-replicate 53 2 (omega arith)) (
          AreBytes-append (0xF6 ∷ []) behind_size (omega arith, tt)
            (AreBytes-append (replicate 445 2) end_mark (AreBytes-replicate 445 2 (omega arith))
              (omega arith, (omega arith, tt))))))

walk_mft-zero_division_example :
    (walk_mft same_bytes small_image sector_bpb 0 ≡ zero_division)
    × ((max_records : ℕ)
        → 0 < max_records
        → walk_mft same_bytes small_image sector_bpb max_records ≡ records [])
walk_mft-zero_division_example =
    walk_mft-zero_division same_bytes small_image sector sector_bpb 0xF6 sector-AreBytes
      parses_sector refl (omega arith)

-- a file of two clusters and a hole, of which the last byte is left out
abbrev file_runs : NonResident
file_runs = record {
  starting_vcn = 0;
  last_vcn = 2;
  runlist_offset = 64;
  compression_unit = 0;
  allocated_size = 12;
  real_size = 11;
  initialised_size = 11;
  data_runs =
      (record { cluster_count = 1; cluster_offset = pos 2; is_sparse = false })
      ∷ ((record { cluster_count = 1; cluster_offset = pos 0; is_sparse = true })
          ∷ ((record { cluster_count = 1; cluster_offset = negsuc 0; is_sparse = false }) ∷ []));
}

abbrev entry : MftRecord
entry = record {
  header = header;
  attributes = [];
  standard_info = none;
  file_name = none;
  data_resident = [];
  data_non_resident = some file_runs;
  raw_data = [];
  is_resident = false;
}

recovery : Unit {0}
unfolding classify_recoverability classify_runs has_errors classify_bytes cluster_size
    resolve_runlist resolve_from resolve_run next_lcn ◌+ℤ◌ ◌-ℤ◌ ◌*ℤ◌ validate_runlist validate_from
    run_issues next_vcn_end next_seen lcn_issues lcn_end overlaps last_vcn_end
    estimate_recoverable_bytes estimate_runs estimate_run file_bytes cluster_bytes layout run_layout
    row read_bytes
recovery = tt

is_recoverable : classify_recoverability small_image (some_bpb 1 (pos 0)) entry ≡ some recoverable
unfolding recovery
is_recoverable = refl

recover_non_resident_file-recoverable_example :
    let file = recover_non_resident_file same_bytes small_image (some_bpb 1 (pos 0)) entry 0 in
    (file.recovery_status ≡ recovered)
    × (file.data_bytes ≡ 9 ∷ 10 ∷ 11 ∷ 12 ∷ 0 ∷ 0 ∷ 0 ∷ 0 ∷ 70 ∷ 73 ∷ 76 ∷ [])
    × (length file.data_bytes ≡ 11)
unfolding recovery
recover_non_resident_file-recoverable_example =
    recover_non_resident_file-recoverable same_bytes small_image (some_bpb 1 (pos 0)) entry
      file_runs refl is_recoverable

-- The same runs of 12 bytes, and a size of 20: the file is called recoverable, and 12 bytes are
-- recovered.
abbrev short_runs : NonResident
short_runs = record file_runs { real_size = 20 }

abbrev short_entry : MftRecord
short_entry = record entry { data_non_resident = some short_runs }

short_is_recoverable :
    classify_recoverability small_image (some_bpb 1 (pos 0)) short_entry ≡ some recoverable
unfolding recovery
short_is_recoverable = refl

short_is_recovered :
    let file =
      recover_non_resident_file same_bytes small_image (some_bpb 1 (pos 0)) short_entry 0 in
    (file.recovery_status ≡ recovered) × (length file.data_bytes ≡ 12)
unfolding recovery
short_is_recovered =
    let (status, _, n) =
      recover_non_resident_file-recoverable same_bytes small_image (some_bpb 1 (pos 0)) short_entry
        short_runs refl short_is_recoverable in
    (status, n)
