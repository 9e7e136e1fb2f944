-- ===== src/Forensics/Timeline/Built.antt =====
-- forensics/timeline.py: what a built timeline holds.
use recoverx_cli.Prelude.{
  ◌≡◌, refl, ◌↔◌, inl, inr, true, false, ◌&&◌, ◌||◌, some, List, [], ◌∷◌, arith, Bool-cases,
}
use recoverx_cli.Utils.Text.{text_eq_iff}
use recoverx_cli.Forensics.{ForensicEvent, type_value, source_value}
use recoverx_cli.Forensics.Timeline.{
  same_key, is_seen, key_le, sort, deduplicate_from, deduplicate, any_timed, any_untimed, Timeline,
  build,
}
use recoverx_cli.Forensics.Timeline.Sorted.{
  All, IsSorted, All-sort, time_eq_iff, sort-IsSorted, is_seen-sort,
}

-- What `_deduplicate` compares.
SameKey : ForensicEvent → ForensicEvent → Type 0
SameKey a b =
    (a.timestamp ≡ b.timestamp)
    × (type_value a.event_type ≡ type_value b.event_type)
    × (a.mft_reference ≡ b.mft_reference)
    × (a.filename ≡ b.filename)
    × (source_value a.source ≡ source_value b.source)

same_key_iff : (a b : ForensicEvent) → (same_key a b ≡ true) ↔ SameKey a b
unfolding same_key SameKey
same_key_iff a b = ground (
  arith,
  time_eq_iff a.timestamp b.timestamp,
  text_eq_iff (type_value a.event_type) (type_value b.event_type),
  text_eq_iff a.filename b.filename,
  text_eq_iff (source_value a.source) (source_value b.source),
)

same_key_trans : (a b c : ForensicEvent) → same_key a b ≡ true → same_key a c ≡ same_key b c
unfolding SameKey
same_key_trans a b c h = ground (arith, h, same_key_iff a b, same_key_iff a c, same_key_iff b c)

same_key_comm : (a b : ForensicEvent) → same_key a b ≡ same_key b a
unfolding SameKey
same_key_comm a b = ground (arith, same_key_iff a b, same_key_iff b a)

is_seen_same :
    (a b : ForensicEvent) (events : List ForensicEvent)
    → same_key a b ≡ true
    → is_seen a events ≡ is_seen b events
unfolding is_seen
is_seen_same a b [] h = refl
is_seen_same a b (x ∷ xs) h = rw (same_key_trans a b x h, is_seen_same a b xs h)

-- No two of the events have the same key.
abbrev pub AreDistinct : List ForensicEvent → Type 0
AreDistinct [] = Unit {0}
AreDistinct (e ∷ events) = (is_seen e events ≡ false) × AreDistinct events

is_seen-deduplicate_from :
    (a : ForensicEvent) (events seen : List ForensicEvent)
    → (is_seen a (deduplicate_from seen events) || is_seen a seen)
      ≡ (is_seen a events || is_seen a seen)
unfolding deduplicate_from is_seen
is_seen-deduplicate_from a [] seen = refl
is_seen-deduplicate_from a (e ∷ events) seen =
    let skipped = is_seen-deduplicate_from a events seen in
    let kept = is_seen-deduplicate_from a events (e ∷ seen) in
    let same = is_seen_same a e seen in ground (arith, skipped, kept, same)

-- What is kept is not among the events seen before.
AreUnseen : List ForensicEvent → List ForensicEvent → Type 0
AreUnseen seen = All (λ e. is_seen e seen ≡ false)

AreUnseen-cons :
    (e : ForensicEvent) (seen events : List ForensicEvent)
    → AreUnseen (e ∷ seen) events
    → AreUnseen seen events × (is_seen e events ≡ false)
unfolding is_seen AreUnseen
AreUnseen-cons e seen [] h = (tt, refl)
AreUnseen-cons e seen (x ∷ xs) h =
    let (unseen, apart) = AreUnseen-cons e seen xs h.1 in
    let swapped = same_key_comm e x in
    ((ground (arith, h.0), unseen), ground (arith, h.0, apart, swapped))

deduplicate_from-AreDistinct :
    (events seen : List ForensicEvent)
    → AreUnseen seen (deduplicate_from seen events) × AreDistinct (deduplicate_from seen events)
unfolding deduplicate_from AreUnseen
deduplicate_from-AreDistinct [] seen = (tt, tt)
deduplicate_from-AreDistinct (e ∷ events) seen = elim (Bool-cases (is_seen e seen)) [
  | inl known ↦ rw known (deduplicate_from-AreDistinct events seen)
  | inr new ↦
      let (unseen, distinct) = deduplicate_from-AreDistinct events (e ∷ seen) in
      let (rest, apart) = AreUnseen-cons e seen (deduplicate_from (e ∷ seen) events) unseen in
      rw new ((new, rest), (apart, distinct))
]

-- Of the events some are kept, in their order.
All-deduplicate_from {ℓ} :
    (P : ForensicEvent → Type ℓ) (events seen : List ForensicEvent)
    → All P events
    → All P (deduplicate_from seen events)
unfolding deduplicate_from
All-deduplicate_from P [] seen h = tt
All-deduplicate_from P (e ∷ events) seen h = elim (Bool-cases (is_seen e seen)) [
  | inl known ↦ rw known (All-deduplicate_from P events seen h.1)
  | inr new ↦ rw new (h.0, All-deduplicate_from P events (e ∷ seen) h.1)
]

IsSorted-deduplicate_from :
    (events seen : List ForensicEvent) → IsSorted events → IsSorted (deduplicate_from seen events)
unfolding deduplicate_from
IsSorted-deduplicate_from [] seen h = tt
IsSorted-deduplicate_from (e ∷ events) seen h = elim (Bool-cases (is_seen e seen)) [
  | inl known ↦ rw known (IsSorted-deduplicate_from events seen h.1)
  | inr new ↦ rw new (
    All-deduplicate_from (λ x. key_le e x ≡ true) events (e ∷ seen) h.0,
    IsSorted-deduplicate_from events (e ∷ seen) h.1,
  )
]

keys_kept :
    (a : ForensicEvent) (sorted events : List ForensicEvent)
    → (is_seen a (deduplicate_from [] sorted) || is_seen a []) ≡ (is_seen a sorted || is_seen a [])
    → is_seen a sorted ≡ is_seen a events
    → is_seen a (deduplicate_from [] sorted) ≡ is_seen a events
unfolding is_seen
keys_kept a sorted events kept moved = ground (arith, kept, moved)

-- Building a timeline of events that all have a time, or all have none, gives a timeline that is in
-- the order of the times and then of the MFT references, has no two events of the same key, has
-- events of exactly the keys that it had before, and has no other events than it had.
pub build-IsSorted :
    (t : Timeline)
    → (any_timed t.events && any_untimed t.events) ≡ false
    → (after : Timeline) × (build t ≡ some after)
      × IsSorted after.events
      × AreDistinct after.events
      × ((e : ForensicEvent) → is_seen e after.events ≡ is_seen e t.events)
      × ((P : ForensicEvent → Type 0) → All P t.events → All P after.events)
unfolding build deduplicate
build-IsSorted t h =
    let sorted = sort t.events in
    let seen_after = λ (e : ForensicEvent).
      let kept = is_seen-deduplicate_from e sorted [] in
      let moved = is_seen-sort e t.events in keys_kept e sorted t.events kept moved in
    (
      record { events = deduplicate_from [] sorted; built = true },
      rw h,
      IsSorted-deduplicate_from sorted [] (sort-IsSorted t.events),
      (deduplicate_from-AreDistinct sorted []).1,
      λ e. seen_after e,
      λ P all. All-deduplicate_from P sorted [] (All-sort P t.events all),
    )
