-- ===== src/Ntfs/Usn/Events/Reported.antt =====
-- ntfs/usn/mapping.py: which events a journal gives.
use recoverx_cli.Prelude.{
  ℕ, ◌+◌, ◌≡◌, refl, ◌≢◌, ◌⊎◌, inl, inr, Bool, true, false, not, ◌&&◌, ◌||◌, Option, none, some,
  List, [], ◌∷◌, ◌++◌, arith, ◌==◌, if◌then◌else◌, Bool-cases, length,
}
use recoverx_cli.Forensics.{ForensicEvent, file_overwritten, file_truncated, make_event}
use recoverx_cli.Ntfs.Usn.{UsnRecord, has_flag}
use recoverx_cli.Ntfs.Usn.Events.{
  event_of_reasons, usn_to_event, put_pair, pop_pair, pair_events, map_record, pending_events,
  map_from, map_usn_records,
}

module _ (clock : ℕ → ℕ) where
  -- The event is that of the record at a time of the clock, but for the former name.
  abbrev pub IsEventOf : UsnRecord → ForensicEvent → Type 0
  IsEventOf r e =
      (calls : ℕ) × (e
        ≡ record (usn_to_event (clock calls) r) { previous_filename = e.previous_filename })

  -- Each record has an event of its own, in the order of the records: without the other events there
  -- are as many events as records, and the n-th is that of the n-th record.
  abbrev pub AllReported : List UsnRecord → List ForensicEvent → Type 0
  AllReported [] events = Unit {0}
  AllReported (r ∷ rs) [] = ⊥
  AllReported (r ∷ rs) (e ∷ events) =
      (IsEventOf r e × AllReported rs events) ⊎ AllReported (r ∷ rs) events

  AllReported-pair_events :
      (calls : ℕ) (popped : Option UsnRecord) (r : UsnRecord) (rs : List UsnRecord)
      (events : List ForensicEvent)
      → AllReported rs events
      → AllReported (r ∷ rs) (pair_events clock calls popped r ++ events)
  AllReported-pair_events calls none r rs events h = inl ((calls, refl), h)
  AllReported-pair_events calls (some old) r rs events h = inr (inl ((calls + 1, refl), h))

  AllReported-map_record :
      (calls : ℕ) (pairs : List (ℕ × UsnRecord)) (r : UsnRecord) (rs : List UsnRecord)
      (events : List ForensicEvent)
      → AllReported rs events
      → AllReported (r ∷ rs) ((map_record clock calls pairs r).0 ++ events)
  unfolding map_record
  AllReported-map_record calls pairs r rs events h =
      elim (Bool-cases (has_flag r.reason_flags 0x1000)) [
        | inl old ↦ rw old (inl ((calls, refl), h))
        | inr not_old ↦ elim (Bool-cases (has_flag r.reason_flags 0x2000)) [
          | inl new ↦
              rw (not_old, new)
                (AllReported-pair_events calls (pop_pair r.file_reference pairs).0 r rs events h)
          | inr other ↦ rw (not_old, other) (inl ((calls, refl), h))
        ]
      ]

  AllReported-map_from :
      (rs : List UsnRecord) (calls : ℕ) (pairs : List (ℕ × UsnRecord))
      → AllReported rs (map_from clock calls pairs rs)
  unfolding map_from
  AllReported-map_from [] calls pairs = tt
  AllReported-map_from (r ∷ rs) calls pairs =
      let round = map_record clock calls pairs r in
      let after = calls + length round.0 in
      AllReported-map_record calls pairs r rs (map_from clock after round.1 rs)
        (AllReported-map_from rs after round.1)

  -- Every record has an event of its own in what `map_usn_records` returns, in the order of the
  -- records: that of `usn_to_event` at a time of the clock, but for the former name.
  pub map_usn_records-AllReported :
      (rs : List UsnRecord) → AllReported rs (map_usn_records clock rs)
  unfolding map_usn_records
  map_usn_records-AllReported rs = AllReported-map_from rs 0 []

  -- A record with the old name of a file and one with its new name give three events, and that of the
  -- old name twice.
  map_usn_records-rename :
      (old new : UsnRecord)
      → has_flag old.reason_flags 0x1000 ≡ true
      → has_flag new.reason_flags 0x1000 ≡ false
      → has_flag new.reason_flags 0x2000 ≡ true
      → old.file_reference ≡ new.file_reference
      → map_usn_records clock (old ∷ (new ∷ []))
        ≡ usn_to_event (clock 0) old
          ∷ (usn_to_event (clock 1) old
              ∷ (record (usn_to_event (clock 2) new) {
                previous_filename = (usn_to_event (clock 1) old).filename;
              }
                  ∷ []))
  unfolding map_usn_records map_from map_record put_pair pop_pair pending_events
  map_usn_records-rename old new o n m same =
      let equal : (old.file_reference == new.file_reference) ≡ true = ground arith in
      rw (o, n, m, equal)

-- Of three tests that all fail none holds.
none_holds : (a b c : Bool) → (a || (b || c)) ≡ false → ((a ≡ true) ⊎ (c ≡ true)) → ⊥
none_holds a b c h (inl e) = absurd (ground (arith, h, e))
none_holds a b c h (inr e) = absurd (ground (arith, h, e))

if-holds {ℓ} :
    (P : ForensicEvent → Type ℓ) (test : Bool) (x y : ForensicEvent)
    → (test ≡ true → P x)
    → (test ≡ false → P y)
    → P (if test then x else y)
if-holds P true x y p q = p refl
if-holds P false x y p q = q refl

-- No record gives an event of the type FILE_OVERWRITTEN or FILE_TRUNCATED, whatever its reasons are.
usn_to_event-event_type :
    (now : ℕ) (r : UsnRecord)
    → ((usn_to_event now r).event_type ≢ file_overwritten)
      × ((usn_to_event now r).event_type ≢ file_truncated)
unfolding usn_to_event event_of_reasons make_event
usn_to_event-event_type now r =
    let P =
      λ (e : ForensicEvent). (e.event_type ≢ file_overwritten) × (e.event_type ≢ file_truncated) in
    let has = has_flag r.reason_flags in
    if-holds P (has 0x100) _ _ (λ _. ground arith)
      (λ _.
        if-holds P (has 0x200 && not (has 0x80000000)) _ _ (λ _. ground arith)
          (λ _.
            if-holds P (has 0x1000) _ _ (λ _. ground arith)
              (λ _.
                if-holds P (has 0x2000) _ _ (λ _. ground arith)
                  (λ _.
                    if-holds P (has 1 || (has 2 || has 4)) _ _ (λ _. ground arith)
                      (λ unmodified.
                        if-holds P (has 0x800) _ _ (λ _. ground arith)
                          (λ _.
                            if-holds P (has 0x8000) _ _ (λ _. ground arith)
                              (λ _.
                                if-holds P (has 0x400) _ _ (λ _. ground arith)
                                  (λ _.
                                    if-holds P (has 1) _ _
                                      (λ overwritten. absurd (
                                        none_holds (has 1) (has 2) (has 4) unmodified
                                          (inl overwritten)))
                                      (λ _.
                                        if-holds P (has 4) _ _
                                          (λ truncated. absurd (
                                            none_holds (has 1) (has 2) (has 4) unmodified
                                              (inr truncated)))
                                          (λ _. ground arith))))))))))
