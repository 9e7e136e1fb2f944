-- ===== src/Forensics.antt =====
-- src/recoverx/core/forensics/models.py and events.py: the events of a forensic timeline.
use recoverx_cli.Prelude.{
  ℕ, zero, suc, ◌+◌, ◌-◌, ◌*◌, ◌/◌, ◌%◌, ◌^◌, ◌≤◌, ◌<◌, min, max, ◌≡◌, refl, sym, ap, ◌∙◌, subst,
  fun_ext, ◌≢◌, ◌↔◌, ◌⊎◌, inl, inr, Bool, true, false, not, ◌&&◌, ◌||◌, Option, none, some, List,
  [], ◌∷◌, ◌++◌, map, append-nil, append_assoc, arith, ltb, leb, ◌==◌, if◌then◌else◌, ltb→lt,
  lt→ltb, leb→le, ==_iff, Bool-cases, Option-cases, length, get_elem?, get_or, take, drop,
  replicate, concat, length-append, length-take, length-drop, length-replicate, length-map,
  take-zero, take-nil, drop-nil, take_of_length-le, take-append, take-take, take-replicate,
  replicate-add, drop-drop, take-add, get_elem?-append,
}
use recoverx_cli.Prelude.Int.{
  ℤ, pos, negsuc, pos_part, neg_part, sub_ℕ, ◌+ℤ◌, ◌-ℤ◌, ◌*ℤ◌, ◌≤ℤ◌, ◌<ℤ◌, leb_ℤ, ltb_ℤ, +ℤ_parts,
  -ℤ_parts, eq_of_parts, int_laws, pos-*, pos-+,
}
pub mod Timeline
use recoverx_cli.Utils.Text.{Text, text}
use recoverx_cli.Ntfs.Usn.{UsnRecord}

pub data EventType : Type 0 where
  file_created file_deleted file_modified file_renamed file_moved file_truncated : EventType
  file_overwritten attribute_changed security_changed mft_changed journal_entry : EventType
  index_entry logfile_record unknown : EventType

pub data EventSource : Type 0 where
  mft usn logfile timeline correlation unknown_source : EventSource

-- `event_type.value` and `source.value`
abbrev pub type_value : EventType → Text
type_value file_created = text "FILE_CREATED"
type_value file_deleted = text "FILE_DELETED"
type_value file_modified = text "FILE_MODIFIED"
type_value file_renamed = text "FILE_RENAMED"
type_value file_moved = text "FILE_MOVED"
type_value file_truncated = text "FILE_TRUNCATED"
type_value file_overwritten = text "FILE_OVERWRITTEN"
type_value attribute_changed = text "ATTRIBUTE_CHANGED"
type_value security_changed = text "SECURITY_CHANGED"
type_value mft_changed = text "MFT_CHANGED"
type_value journal_entry = text "JOURNAL_ENTRY"
type_value index_entry = text "INDEX_ENTRY"
type_value logfile_record = text "LOGFILE_RECORD"
type_value unknown = text "UNKNOWN"

abbrev pub source_value : EventSource → Text
source_value mft = text "MFT"
source_value usn = text "USN"
source_value logfile = text "LOGFILE"
source_value timeline = text "TIMELINE"
source_value correlation = text "CORRELATION"
source_value unknown_source = text "UNKNOWN"

-- `Confidence`, in hundredths
abbrev pub high : ℕ
high = 95

abbrev pub medium : ℕ
medium = 80

abbrev pub low : ℕ
low = 60

-- A note, by what it says.
pub data EventNote : Type 0 where
  usn_version : ℕ → ℕ → EventNote
  handle_closed : EventNote

-- A time is a number, as all times are in UTC; the confidence is in hundredths. `source_record` is
-- the record whose `to_dict` it holds; `none` is the empty dict.
pub record ForensicEvent : Type 0 where
  pub timestamp : Option ℕ
  pub event_type : EventType
  pub source : EventSource
  pub filename : Text
  pub parent_name : Text
  pub mft_reference : ℕ
  pub parent_mft_reference : ℕ
  pub previous_filename : Text
  pub file_size : ℕ
  pub attributes : List (Text × Text)
  pub confidence : ℕ
  pub notes : List EventNote
  pub usn_reason_flags : List Text
  pub lsn : ℤ
  pub source_record : Option UsnRecord

-- `make_event` with the defaults for the other arguments
unfoldable pub make_event :
    EventType → EventSource → Option ℕ → Text → ℕ → ℕ → ℕ → List (Text × Text) → ForensicEvent
make_event event_type source timestamp filename mft_reference parent_mft_reference confidence
      attributes =
    record {
      timestamp = timestamp;
      event_type = event_type;
      source = source;
      filename = filename;
      parent_name = [];
      mft_reference = mft_reference;
      parent_mft_reference = parent_mft_reference;
      previous_filename = [];
      file_size = 0;
      attributes = attributes;
      confidence = confidence;
      notes = [];
      usn_reason_flags = [];
      lsn = pos 0;
      source_record = none;
    }
