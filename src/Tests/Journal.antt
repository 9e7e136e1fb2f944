-- ===== src/Tests/Journal.antt =====
-- A change journal, a timeline and a graph.
use recoverx_cli.Prelude.{
  ℕ, ◌+◌, ◌≡◌, refl, ◌⊎◌, false, ◌&&◌, Option, none, some, List, [], ◌∷◌, ◌++◌, arith, replicate,
}
use recoverx_cli.Prelude.Int.{ℤ, pos}
use recoverx_cli.Utils.RawReader.{Bytes}
use recoverx_cli.Utils.Unpack.{uint, slice}
use recoverx_cli.Utils.Text.{Text, text}
use recoverx_cli.Ntfs.Attributes.{signed}
use recoverx_cli.Ntfs.Usn.{
  UsnRecord, reasons_in, resolve_usn_reasons, with_name_inside, filetime_to_datetime,
  read_usn_record, parse_usn_record, usn_records_from, parse_usn_records,
}
use recoverx_cli.Ntfs.Usn.Chain.{
  IsChain, AreInOrder, parse_usn_records-IsChain, parse_usn_records-AreInOrder,
}
use recoverx_cli.Ntfs.Usn.Events.{map_usn_records}
use recoverx_cli.Ntfs.Usn.Events.Reported.{AllReported, map_usn_records-AllReported}
use recoverx_cli.Forensics.{
  ForensicEvent, EventType, file_created, file_deleted, usn, high, make_event,
}
use recoverx_cli.Forensics.Timeline.{Timeline, any_timed, any_untimed, build, is_seen}
use recoverx_cli.Forensics.Timeline.Sorted.{All, IsSorted}
use recoverx_cli.Forensics.Timeline.Built.{AreDistinct, build-IsSorted}
use recoverx_cli.Correlation.Graph.{CorrelationEdge, CorrelationGraph, find_path}
use recoverx_cli.Correlation.Graph.Found.{IsPath, find_path-IsPath}

abbrev same_bytes : Bytes → Text
same_bytes bytes = bytes

abbrev no_time : ℤ → Option ℕ
no_time ticks = none

-- a record of 60 bytes with the reasons 0x1000 and a name of no bytes
abbrev old_name : Bytes
old_name =
    (60 ∷ 0 ∷ 0 ∷ 0 ∷ 2 ∷ 0 ∷ 0 ∷ 0 ∷ 7 ∷ replicate 31 0)
    ++ (0 ∷ 0x10 ∷ replicate 14 0)
    ++ (0 ∷ 0 ∷ 60 ∷ 0 ∷ [])

abbrev journal : Bytes
journal = old_name ++ (old_name ++ (1 ∷ 2 ∷ 3 ∷ []))

abbrev record_at : ℕ → UsnRecord
record_at offset = record {
  record_length = 60;
  major_version = 2;
  minor_version = 0;
  file_reference = 7;
  parent_reference = 0;
  usn = pos 0;
  timestamp = none;
  reason_flags = 0x1000;
  reason_names = text "USN_REASON_RENAME_OLD_NAME" ∷ [];
  source_info = 0;
  security_id = 0;
  file_attributes = 0;
  file_name = [];
  raw_offset = offset;
  raw_data = old_name;
}

program : Unit {0}
unfolding parse_usn_records usn_records_from parse_usn_record read_usn_record with_name_inside
    filetime_to_datetime resolve_usn_reasons reasons_in signed uint slice any_timed any_untimed
program = tt

journal-IsChain : IsChain no_time same_bytes journal 0 (record_at 0 ∷ record_at 60 ∷ [])
unfolding program
journal-IsChain = (refl, (refl, omega arith))

parse_usn_records-IsChain_example :
    parse_usn_records no_time same_bytes journal 0 ≡ record_at 0 ∷ record_at 60 ∷ []
parse_usn_records-IsChain_example =
    parse_usn_records-IsChain no_time same_bytes journal (record_at 0 ∷ record_at 60 ∷ []) 0
      (omega arith) journal-IsChain

parse_usn_records-AreInOrder_example :
    AreInOrder no_time same_bytes journal 0 (parse_usn_records no_time same_bytes journal 0)
parse_usn_records-AreInOrder_example = parse_usn_records-AreInOrder no_time same_bytes journal 0

-- two records of an old name, without one of the new name
map_usn_records-AllReported_example :
    AllReported
      (λ calls. calls + 5)
      (record_at 0 ∷ record_at 60 ∷ [])
      (map_usn_records (λ calls. calls + 5) (record_at 0 ∷ record_at 60 ∷ []))
map_usn_records-AllReported_example =
    map_usn_records-AllReported (λ calls. calls + 5) (record_at 0 ∷ record_at 60 ∷ [])

abbrev event : ℕ → EventType → ForensicEvent
event time event_type = make_event event_type usn (some time) (text "a") 3 0 high []

-- three events, of which two are the same
abbrev events : Timeline
events = record {
  events = event 9 file_deleted ∷ event 4 file_created ∷ event 9 file_deleted ∷ [];
  built = false;
}

events_timed : (any_timed events.events && any_untimed events.events) ≡ false
unfolding program make_event
events_timed = refl

build-IsSorted_example :
    (after : Timeline) × (build events ≡ some after)
    × IsSorted after.events
    × AreDistinct after.events
    × ((e : ForensicEvent) → is_seen e after.events ≡ is_seen e events.events)
    × ((P : ForensicEvent → Type 0) → All P events.events → All P after.events)
build-IsSorted_example = build-IsSorted events events_timed

-- a cycle of three nodes, and a fourth
abbrev edges : CorrelationGraph
edges = record {
  nodes = [];
  edges =
      (record { edge_id = 1; source_id = text "a"; target_id = text "b"; edge_type = text "x" })
      ∷ ((record { edge_id = 2; source_id = text "b"; target_id = text "c"; edge_type = text "x" })
          ∷ ((record {
            edge_id = 3;
            source_id = text "c";
            target_id = text "a";
            edge_type = text "x";
          })
              ∷ ((record {
                edge_id = 4;
                source_id = text "d";
                target_id = text "b";
                edge_type = text "x";
              })
                  ∷ [])));
  edge_counter = 4;
}

find_path-IsPath_example :
    (path : List CorrelationEdge) × (find_path (text "c") (text "d") edges ≡ some path)
    × (IsPath edges.edges (text "c") path (text "d")
        ⊎ ((path ≡ [])
            × ((other : List CorrelationEdge)
                → IsPath edges.edges (text "c") other (text "d")
                → ⊥)))
find_path-IsPath_example = find_path-IsPath (text "c") (text "d") edges
