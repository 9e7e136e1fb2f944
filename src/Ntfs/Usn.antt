-- ===== src/Ntfs/Usn.antt =====
-- ntfs/usn/records.py and ntfs/usn/reasons.py: the records of the change journal.
use recoverx_cli.Prelude.{
  ℕ, zero, suc, ◌+◌, ◌-◌, ◌*◌, ◌/◌, ◌%◌, ◌^◌, ◌≤◌, ◌<◌, min, max, ◌≡◌, refl, sym, ap, ◌∙◌, subst,
  fun_ext, ◌≢◌, ◌↔◌, ◌⊎◌, inl, inr, Bool, true, false, not, ◌&&◌, ◌||◌, Option, none, some, List,
  [], ◌∷◌, ◌++◌, map, append-nil, append_assoc, arith, ltb, leb, ◌==◌, if◌then◌else◌, ltb→lt,
  lt→ltb, leb→le, ==_iff, Bool-cases, Option-cases, length, get_elem?, get_or, take, drop,
  replicate, concat, length-append, length-take, length-drop, length-replicate, length-map,
  take-zero, take-nil, drop-nil, take_of_length-le, take-append, take-take, take-replicate,
  replicate-add, drop-drop, take-add, get_elem?-append,
}
use recoverx_cli.Prelude.Int.{
  ℤ, pos, negsuc, pos_part, neg_part, sub_ℕ, ◌+ℤ◌, ◌-ℤ◌, ◌*ℤ◌, ◌≤ℤ◌, ◌<ℤ◌, leb_ℤ, ltb_ℤ, +ℤ_parts,
  -ℤ_parts, eq_of_parts, int_laws, pos-*, pos-+,
}
pub mod Chain
pub mod Events
use recoverx_cli.Utils.RawReader.{Bytes}
use recoverx_cli.Utils.Unpack.{u16, u32, u64, slice, ◌>>=◌}
use recoverx_cli.Utils.Text.{Text, text}
use recoverx_cli.Ntfs.Attributes.{signed}

-- `USN_REASON_FLAGS`, from the largest flag down
abbrev pub usn_reason_flags : List (ℕ × Text)
usn_reason_flags =
    (0x80000000, text "USN_REASON_CLOSE")
    ∷ ((0x01000000, text "USN_REASON_DELETE_CLOSE")
        ∷ ((0x00800000, text "USN_REASON_INTEGRITY_CHANGE")
            ∷ ((0x00400000, text "USN_REASON_TRANSACTED_CHANGE")
                ∷ ((0x00200000, text "USN_REASON_STREAM_CHANGE")
                    ∷ ((0x00100000, text "USN_REASON_REPARSE_POINT_CHANGE")
                        ∷ ((0x00080000, text "USN_REASON_OBJECT_ID_CHANGE")
                            ∷ ((0x00040000, text "USN_REASON_ENCRYPTION_CHANGE")
                                ∷ ((0x00020000, text "USN_REASON_COMPRESSION_CHANGE")
                                    ∷ ((0x00010000, text "USN_REASON_HARD_LINK_CHANGE")
                                        ∷ ((0x00008000, text "USN_REASON_BASIC_INFO_CHANGE")
                                            ∷ ((0x00004000, text "USN_REASON_INDEXABLE_CHANGE")
                                                ∷ ((0x00002000, text "USN_REASON_RENAME_NEW_NAME")
                                                    ∷ ((
                                                      0x00001000,
                                                      text "USN_REASON_RENAME_OLD_NAME",
                                                    )
                                                        ∷ ((
                                                          0x00000800,
                                                          text "USN_REASON_SECURITY_CHANGE",
                                                        )
                                                            ∷ ((
                                                            0x00000400,
                                                            text "USN_REASON_EA_CHANGE",
                                                            )
                                                            ∷ ((
                                                            0x00000200,
                                                            text "USN_REASON_FILE_DELETE",
                                                            )
                                                            ∷ ((
                                                            0x00000100,
                                                            text "USN_REASON_FILE_CREATE",
                                                            )
                                                            ∷ ((
                                                            0x00000040,
                                                            text "USN_REASON_NAMED_DATA_TRUNCATION",
                                                            )
                                                            ∷ ((
                                                            0x00000020,
                                                            text "USN_REASON_NAMED_DATA_EXTEND",
                                                            )
                                                            ∷ ((
                                                            0x00000010,
                                                            text "USN_REASON_NAMED_DATA_OVERWRITE",
                                                            )
                                                            ∷ ((
                                                            0x00000004,
                                                            text "USN_REASON_DATA_TRUNCATION",
                                                            )
                                                            ∷ ((
                                                            0x00000002,
                                                            text "USN_REASON_DATA_EXTEND",
                                                            )
                                                            ∷ ((
                                                            0x00000001,
                                                            text "USN_REASON_DATA_OVERWRITE",
                                                            )
                                                            ∷ [])))))))))))))))))))))))

-- `flags & flag` for a flag that is one bit
abbrev pub has_flag : ℕ → ℕ → Bool
has_flag flags flag = flags / flag % 2 == 1

unfoldable pub reasons_in : ℕ → List (ℕ × Text) → List Text
reasons_in flags [] = []
reasons_in flags ((flag, name) ∷ rest) =
    let names = reasons_in flags rest in if has_flag flags flag then name ∷ names else names

-- `reasons or ["UNKNOWN"]`
abbrev pub or_unknown : List Text → List Text
or_unknown [] = text "UNKNOWN" ∷ []
or_unknown (name ∷ names) = name ∷ names

unfoldable pub resolve_usn_reasons : ℕ → List Text
unfolding reasons_in
resolve_usn_reasons flags = or_unknown (reasons_in flags usn_reason_flags)

-- Of the fields, `valid` and `validation_error` keep their defaults.
pub record UsnRecord : Type 0 where
  pub record_length : ℕ
  pub major_version : ℕ
  pub minor_version : ℕ
  pub file_reference : ℕ
  pub parent_reference : ℕ
  pub usn : ℤ
  pub timestamp : Option ℕ
  pub reason_flags : ℕ
  pub reason_names : List Text
  pub source_info : ℕ
  pub security_id : ℕ
  pub file_attributes : ℕ
  pub file_name : Text
  pub raw_offset : ℕ
  pub raw_data : Bytes

abbrev pub epoch_filetime : ℕ
epoch_filetime = 116444736000000000

-- The name of a record ends within it.
unfoldable pub with_name_inside : ℕ → UsnRecord → Option UsnRecord
with_name_inside name_end r = if ltb r.record_length name_end then none else some r

-- The parameters are Python's: `from_ticks t` is `datetime.fromtimestamp(t / 10000000, tz=utc)`, with
-- `none` for its exceptions and a time as a number; `decode_utf16` is `decode("utf-16-le", "replace")`.
module _ (from_ticks : ℤ → Option ℕ) (decode_utf16 : Bytes → Text) where
  unfoldable pub filetime_to_datetime : ℕ → Option ℕ
  filetime_to_datetime filetime =
      if filetime == 0 then none else from_ticks (pos filetime -ℤ pos epoch_filetime)

  -- behind the test of the version
  unfoldable pub read_usn_record : Bytes → ℕ → ℕ → ℕ → ℕ → Option UsnRecord
  unfolding with_name_inside filetime_to_datetime resolve_usn_reasons signed
  read_usn_record input offset record_length major_version minor_version = do
    file_ref ← u64 input (offset + 8)
    parent_ref ← u64 input (offset + 16)
    usn ← u64 input (offset + 24)
    timestamp_raw ← u64 input (offset + 32)
    reason_flags ← u32 input (offset + 40)
    source_info ← u32 input (offset + 44)
    security_id ← u32 input (offset + 48)
    file_attributes ← u32 input (offset + 52)
    fn_length ← u16 input (offset + 56)
    fn_offset ← u16 input (offset + 58)
    with_name_inside (fn_offset + fn_length) (record {
      record_length = record_length;
      major_version = major_version;
      minor_version = minor_version;
      file_reference = file_ref;
      parent_reference = parent_ref;
      usn = signed 8 usn;
      timestamp = filetime_to_datetime timestamp_raw;
      reason_flags = reason_flags;
      reason_names = resolve_usn_reasons reason_flags;
      source_info = source_info;
      security_id = security_id;
      file_attributes = file_attributes;
      file_name = decode_utf16 (slice input (offset + fn_offset) (offset + fn_offset + fn_length));
      raw_offset = offset;
      raw_data = slice input offset (offset + record_length);
    })

  -- `none` is None
  unfoldable pub parse_usn_record : Bytes → ℕ → Option UsnRecord
  unfolding read_usn_record
  parse_usn_record input offset = if ltb (length input) (offset + 24) then none else do
    record_length ← u32 input offset
    if ltb record_length 24 || ltb (length input - offset) record_length then none else do
      major_version ← u16 input (offset + 4)
      minor_version ← u16 input (offset + 6)
      if major_version == 2 || major_version == 3
          then read_usn_record input offset record_length major_version minor_version
          else none

  -- The loop, for as many rounds as `max_iterations` leaves.
  unfoldable pub usn_records_from : Bytes → ℕ → ℕ → List UsnRecord
  usn_records_from input zero position = []
  usn_records_from input (suc iterations) position =
      let again = λ (size : ℕ). usn_records_from input iterations (position + size) in
      if ltb (length input) (position + 24) then [] else elim (parse_usn_record input position) [
        | none ↦ again 4
        | some r ↦ r ∷ (if ltb r.record_length 24 then [] else again r.record_length)
      ]

  unfoldable pub parse_usn_records : Bytes → ℕ → List UsnRecord
  parse_usn_records input offset = usn_records_from input (length input / 24) offset
