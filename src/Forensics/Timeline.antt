-- ===== src/Forensics/Timeline.antt =====
-- forensics/timeline.py: the events in their order, each once.
use recoverx_cli.Prelude.{
  ℕ, zero, suc, ◌+◌, ◌-◌, ◌*◌, ◌/◌, ◌%◌, ◌^◌, ◌≤◌, ◌<◌, min, max, ◌≡◌, refl, sym, ap, ◌∙◌, subst,
  fun_ext, ◌≢◌, ◌↔◌, ◌⊎◌, inl, inr, Bool, true, false, not, ◌&&◌, ◌||◌, Option, none, some, List,
  [], ◌∷◌, ◌++◌, map, append-nil, append_assoc, arith, ltb, leb, ◌==◌, if◌then◌else◌, ltb→lt,
  lt→ltb, leb→le, ==_iff, Bool-cases, Option-cases, length, get_elem?, get_or, take, drop,
  replicate, concat, length-append, length-take, length-drop, length-replicate, length-map,
  take-zero, take-nil, drop-nil, take_of_length-le, take-append, take-take, take-replicate,
  replicate-add, drop-drop, take-add, get_elem?-append,
}
use recoverx_cli.Prelude.Int.{
  ℤ, pos, negsuc, pos_part, neg_part, sub_ℕ, ◌+ℤ◌, ◌-ℤ◌, ◌*ℤ◌, ◌≤ℤ◌, ◌<ℤ◌, leb_ℤ, ltb_ℤ, +ℤ_parts,
  -ℤ_parts, eq_of_parts, int_laws, pos-*, pos-+,
}
pub mod Sorted
pub mod Built
use recoverx_cli.Utils.Text.{Text, text_eq}
use recoverx_cli.Forensics.{EventType, EventSource, type_value, source_value, ForensicEvent}

-- `timestamp or datetime.max` of a list in which all events have a time, or none has
unfoldable pub time_le : Option ℕ → Option ℕ → Bool
time_le none none = true
time_le none (some t) = false
time_le (some s) none = true
time_le (some s) (some t) = leb s t

unfoldable pub time_eq : Option ℕ → Option ℕ → Bool
time_eq none none = true
time_eq none (some t) = false
time_eq (some s) none = false
time_eq (some s) (some t) = s == t

-- the key `(timestamp or datetime.max, mft_reference)` is not greater
unfoldable pub key_le : ForensicEvent → ForensicEvent → Bool
key_le a b =
    if time_eq a.timestamp b.timestamp
    then leb a.mft_reference b.mft_reference
    else time_le a.timestamp b.timestamp

-- `list.sort`, which is stable
unfoldable pub insert : ForensicEvent → List ForensicEvent → List ForensicEvent
insert e [] = e ∷ []
insert e (x ∷ xs) = let rest = insert e xs in if key_le e x then e ∷ (x ∷ xs) else x ∷ rest

unfoldable pub sort : List ForensicEvent → List ForensicEvent
sort [] = []
sort (e ∷ events) = insert e (sort events)

-- The keys of the two events in `_deduplicate` are equal.
unfoldable pub same_key : ForensicEvent → ForensicEvent → Bool
same_key a b =
    time_eq a.timestamp b.timestamp
    && (text_eq (type_value a.event_type) (type_value b.event_type)
        && (a.mft_reference == b.mft_reference
            && (text_eq a.filename b.filename
                && text_eq (source_value a.source) (source_value b.source))))

-- `key in seen`, where `seen` has the keys of these events
unfoldable pub is_seen : ForensicEvent → List ForensicEvent → Bool
is_seen e [] = false
is_seen e (x ∷ seen) = same_key e x || is_seen e seen

unfoldable pub deduplicate_from : List ForensicEvent → List ForensicEvent → List ForensicEvent
deduplicate_from seen [] = []
deduplicate_from seen (e ∷ events) =
    let kept = deduplicate_from (e ∷ seen) events in
    if is_seen e seen then deduplicate_from seen events else e ∷ kept

unfoldable pub deduplicate : List ForensicEvent → List ForensicEvent
deduplicate events = deduplicate_from [] events

abbrev has_time : Option ℕ → Bool
has_time none = false
has_time (some t) = true

unfoldable pub any_timed : List ForensicEvent → Bool
any_timed [] = false
any_timed (e ∷ events) = has_time e.timestamp || any_timed events

unfoldable pub any_untimed : List ForensicEvent → Bool
any_untimed [] = false
any_untimed (e ∷ events) = not (has_time e.timestamp) || any_untimed events

pub record Timeline : Type 0 where
  pub events : List ForensicEvent
  pub built : Bool

abbrev pub new_timeline : Timeline
new_timeline = record { events = []; built = false }

abbrev pub add_event : ForensicEvent → Timeline → Timeline
add_event event t = record { events = t.events ++ event ∷ []; built = false }

abbrev pub add_events : List ForensicEvent → Timeline → Timeline
add_events events t = record { events = t.events ++ events; built = false }

-- `none` is TypeError: `datetime.max`, which has no time zone, is compared with a time that has one.
unfoldable pub build : Timeline → Option Timeline
build t =
    if any_timed t.events && any_untimed t.events
    then none
    else some (record { events = deduplicate (sort t.events); built = true })

-- the property `events`: the timeline behind it, which then is built
unfoldable pub built_timeline : Timeline → Option Timeline
built_timeline t = if t.built then some t else build t
