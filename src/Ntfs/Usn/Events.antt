-- ===== src/Ntfs/Usn/Events.antt =====
-- ntfs/usn/mapping.py: the events that the records of the change journal stand for.
use recoverx_cli.Prelude.{
  ℕ, zero, suc, ◌+◌, ◌-◌, ◌*◌, ◌/◌, ◌%◌, ◌^◌, ◌≤◌, ◌<◌, min, max, ◌≡◌, refl, sym, ap, ◌∙◌, subst,
  fun_ext, ◌≢◌, ◌↔◌, ◌⊎◌, inl, inr, Bool, true, false, not, ◌&&◌, ◌||◌, Option, none, some, List,
  [], ◌∷◌, ◌++◌, map, append-nil, append_assoc, arith, ltb, leb, ◌==◌, if◌then◌else◌, ltb→lt,
  lt→ltb, leb→le, ==_iff, Bool-cases, Option-cases, length, get_elem?, get_or, take, drop,
  replicate, concat, length-append, length-take, length-drop, length-replicate, length-map,
  take-zero, take-nil, drop-nil, take_of_length-le, take-append, take-take, take-replicate,
  replicate-add, drop-drop, take-add, get_elem?-append,
}
use recoverx_cli.Prelude.Int.{
  ℤ, pos, negsuc, pos_part, neg_part, sub_ℕ, ◌+ℤ◌, ◌-ℤ◌, ◌*ℤ◌, ◌≤ℤ◌, ◌<ℤ◌, leb_ℤ, ltb_ℤ, +ℤ_parts,
  -ℤ_parts, eq_of_parts, int_laws, pos-*, pos-+,
}
pub mod Reported
use recoverx_cli.Utils.Text.{Text, text, text_eq}
use recoverx_cli.Forensics.{
  ForensicEvent, EventType, file_created, file_deleted, file_modified, file_renamed, file_truncated,
  file_overwritten, attribute_changed, journal_entry, usn, high, medium, low, usn_version,
  handle_closed, make_event,
}
use recoverx_cli.Ntfs.Usn.{UsnRecord, has_flag}

abbrev pub reason_prefix : Text
reason_prefix = text "USN_REASON_"

-- `name.replace("USN_REASON_", "")` of a name that has it at its start, if at all
unfoldable pub short_reason : Text → Text
unfolding text_eq
short_reason name =
    if text_eq (take (length reason_prefix) name) reason_prefix
    then drop (length reason_prefix) name
    else name

-- `",".join(names)`
unfoldable pub join_names : List Text → Text
join_names [] = []
join_names (name ∷ []) = name
join_names (name ∷ (next ∷ names)) = name ++ (44 ∷ join_names (next ∷ names))

abbrev pub attribute_type : Text → List (Text × Text)
attribute_type value = (text "attribute_type", value) ∷ []

-- the event of the first branch whose bits are set
unfoldable pub event_of_reasons : Option ℕ → UsnRecord → ForensicEvent
unfolding make_event join_names
event_of_reasons ts r =
    let has = has_flag r.reason_flags in
    let parent = r.parent_reference in
    let event =
      λ (event_type : EventType). make_event event_type usn ts r.file_name r.file_reference in
    if has 0x100
    then event file_created parent high []
    else if has 0x200 && not (has 0x80000000)
    then event file_deleted parent high []
    else if has 0x1000
    then (record (event file_renamed parent high []) { previous_filename = text "(old name)" })
    else if has 0x2000
    then event file_renamed parent high []
    else if has 1 || (has 2 || has 4)
    then event file_modified 0 high []
    else if has 0x800
    then event attribute_changed 0 medium (attribute_type (text "SECURITY_DESCRIPTOR"))
    else if has 0x8000
    then event attribute_changed 0 medium (attribute_type (text "BASIC_INFO"))
    else if has 0x400
    then event attribute_changed 0 medium (attribute_type (text "EA"))
    else if has 1
    then event file_overwritten parent medium []
    else if has 4
    then event file_truncated parent medium []
    else event journal_entry parent low ((text "usn_reason_flags", join_names r.reason_names) ∷ [])

-- `datetime.now()` where the record has no time
abbrev pub or_now : ℕ → Option ℕ → ℕ
or_now now none = now
or_now now (some t) = t

-- `now` is what `datetime.now()` returns in this call.
unfoldable pub usn_to_event : ℕ → UsnRecord → ForensicEvent
unfolding event_of_reasons short_reason
usn_to_event now r =
    let event = event_of_reasons (some (or_now now r.timestamp)) r in
    record event {
      usn_reason_flags = map short_reason r.reason_names;
      lsn = r.usn;
      source_record = some r;
      notes =
          usn_version r.major_version r.minor_version
          ∷ (if has_flag r.reason_flags 0x80000000 then handle_closed ∷ [] else []);
    }

-- `rename_pairs`: a dict of records by file reference, in the order of insertion
unfoldable pub put_pair : ℕ → UsnRecord → List (ℕ × UsnRecord) → List (ℕ × UsnRecord)
put_pair key r [] = (key, r) ∷ []
put_pair key r ((k, s) ∷ pairs) =
    let rest = put_pair key r pairs in if k == key then (key, r) ∷ pairs else (k, s) ∷ rest

-- `rename_pairs.pop(key, None)`: what is taken, and the dict behind it
unfoldable pub pop_pair : ℕ → List (ℕ × UsnRecord) → Option UsnRecord × List (ℕ × UsnRecord)
pop_pair key [] = (none, [])
pop_pair key ((k, s) ∷ pairs) =
    let rest = pop_pair key pairs in if k == key then (some s, pairs) else (rest.0, (k, s) ∷ rest.1)

-- `clock n` is the time of the call of `usn_to_event` that n calls went before. Each of its calls
-- makes one event, so that a round moves the number of calls on by its events.
module _ (clock : ℕ → ℕ) where
  -- the branch of a new name: what is popped, then
  abbrev pub pair_events : ℕ → Option UsnRecord → UsnRecord → List ForensicEvent
  pair_events calls none r = usn_to_event (clock calls) r ∷ []
  pair_events calls (some old) r =
      let old_event = usn_to_event (clock calls) old in
      let new_event = usn_to_event (clock (calls + 1)) r in
      old_event ∷ (record new_event { previous_filename = old_event.filename } ∷ [])

  -- a round: the events that it appends, and the dict behind it
  unfoldable pub map_record :
      ℕ → List (ℕ × UsnRecord) → UsnRecord → List ForensicEvent × List (ℕ × UsnRecord)
  unfolding put_pair pop_pair
  map_record calls pairs r =
      let popped = pop_pair r.file_reference pairs in
      if has_flag r.reason_flags 0x1000
      then (usn_to_event (clock calls) r ∷ [], put_pair r.file_reference r pairs)
      else if has_flag r.reason_flags 0x2000
      then (pair_events calls popped.0 r, popped.1)
      else (usn_to_event (clock calls) r ∷ [], pairs)

  -- the loop over the records that are left in the dict
  unfoldable pub pending_events : ℕ → List (ℕ × UsnRecord) → List ForensicEvent
  pending_events calls [] = []
  pending_events calls ((key, r) ∷ pairs) =
      usn_to_event (clock calls) r ∷ pending_events (calls + 1) pairs

  unfoldable pub map_from : ℕ → List (ℕ × UsnRecord) → List UsnRecord → List ForensicEvent
  unfolding map_record pending_events
  map_from calls pairs [] = pending_events calls pairs
  map_from calls pairs (r ∷ rs) =
      let round = map_record calls pairs r in
      round.0 ++ map_from (calls + length round.0) round.1 rs

  unfoldable pub map_usn_records : List UsnRecord → List ForensicEvent
  unfolding map_from
  map_usn_records = map_from 0 []
