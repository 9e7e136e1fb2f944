-- ===== src/Ntfs/Usn/Chain.antt =====
-- ntfs/usn/records.py: which records of a journal are found.
use recoverx_cli.Prelude.{
  ℕ, zero, suc, ◌+◌, ◌-◌, ◌*◌, ◌/◌, ◌≤◌, ◌<◌, ◌≡◌, refl, sym, ap, subst, inl, inr, true, false,
  ◌||◌, Option, none, some, List, [], ◌∷◌, arith, ltb, ◌==◌, lt→ltb, Bool-cases, Option-cases,
  length,
}
use recoverx_cli.Prelude.Int.{ℤ}
use recoverx_cli.Utils.RawReader.{Bytes}
use recoverx_cli.Utils.Unpack.{u16, u32, u64, bind-through, unless-through, when-through}
use recoverx_cli.Utils.Text.{Text}
use recoverx_cli.Ntfs.Usn.{
  UsnRecord, with_name_inside, read_usn_record, parse_usn_record, usn_records_from,
  parse_usn_records,
}

with_name_inside-eq :
    (name_end : ℕ) (r s : UsnRecord) → with_name_inside name_end r ≡ some s → r ≡ s
unfolding with_name_inside
with_name_inside-eq name_end r s h = ground (arith, h)

size_bounds :
    (total offset size : ℕ)
    → ltb total (offset + 24) ≡ false
    → (ltb size 24 || ltb (total - offset) size) ≡ false
    → (24 ≤ size) × (offset + size ≤ total)
size_bounds total offset size long good = ground arith

module _ (from_ticks : ℤ → Option ℕ) (decode_utf16 : Bytes → Text) (input : Bytes) where
  read_usn_record-fields :
      (offset size major minor : ℕ) (r : UsnRecord)
      → read_usn_record from_ticks decode_utf16 input offset size major minor ≡ some r
      → (r.record_length ≡ size) × (r.raw_offset ≡ offset)
  unfolding read_usn_record
  read_usn_record-fields offset size major minor r h0 =
      bind-through (u64 input (offset + 8)) h0 (λ a0 _ h1.
        bind-through (u64 input (offset + 16)) h1 (λ a1 _ h2.
          bind-through (u64 input (offset + 24)) h2 (λ a2 _ h3.
            bind-through (u64 input (offset + 32)) h3 (λ a3 _ h4.
              bind-through (u32 input (offset + 40)) h4 (λ a4 _ h5.
                bind-through (u32 input (offset + 44)) h5 (λ a5 _ h6.
                  bind-through (u32 input (offset + 48)) h6 (λ a6 _ h7.
                    bind-through (u32 input (offset + 52)) h7 (λ a7 _ h8.
                      bind-through (u16 input (offset + 56)) h8 (λ fn_length _ h9.
                        bind-through (u16 input (offset + 58)) h9 (λ fn_offset _ h10.
                          let same = with_name_inside-eq (fn_offset + fn_length) _ r h10 in
                          (
                            sym (ap (λ s. s.record_length) same),
                            sym (ap (λ s. s.raw_offset) same),
                          )))))))))))

  -- A record that is read has at least 24 bytes, all within the data.
  parse_usn_record-bounds :
      (offset : ℕ) (r : UsnRecord)
      → parse_usn_record from_ticks decode_utf16 input offset ≡ some r
      → (24 ≤ r.record_length) × (offset + r.record_length ≤ length input) × (r.raw_offset ≡ offset)
  unfolding parse_usn_record
  parse_usn_record-bounds offset r h0 =
      unless-through (ltb (length input) (offset + 24)) h0 (λ long h1.
        bind-through (u32 input offset) h1 (λ size _ h2.
          unless-through (ltb size 24 || ltb (length input - offset) size) h2 (λ good h3.
            bind-through (u16 input (offset + 4)) h3 (λ major _ h4.
              bind-through (u16 input (offset + 6)) h4 (λ minor _ h5.
                when-through (major == 2 || major == 3) h5 (λ _ h6.
                  let (n, place) = read_usn_record-fields offset size major minor r h6 in
                  let (least, most) = size_bounds (length input) offset size long good in
                  (omega (arith, n, least), omega (arith, n, most), place)))))))

  -- From a position on records follow each other without a gap, up to less than 24 bytes of the end.
  abbrev pub IsChain : ℕ → List UsnRecord → Type 0
  IsChain position [] = length input < position + 24
  IsChain position (r ∷ rs) =
      (parse_usn_record from_ticks decode_utf16 input position ≡ some r)
      × IsChain (position + r.record_length) rs

  -- The records that are found: each is the one at its place, within the data, and starts behind the
  -- end of the one before.
  abbrev pub AreInOrder : ℕ → List UsnRecord → Type 0
  AreInOrder position [] = Unit {0}
  AreInOrder position (r ∷ rs) =
      (position ≤ r.raw_offset)
      × (parse_usn_record from_ticks decode_utf16 input r.raw_offset ≡ some r)
      × (24 ≤ r.record_length)
      × (r.raw_offset + r.record_length ≤ length input)
      × AreInOrder (r.raw_offset + r.record_length) rs

  -- As many rounds as there are records find all of a chain.
  usn_records_from-chain :
      (rs : List UsnRecord) (iterations position : ℕ)
      → length rs ≤ iterations
      → IsChain position rs
      → usn_records_from from_ticks decode_utf16 input iterations position ≡ rs
  unfolding usn_records_from
  usn_records_from-chain [] zero position enough chain = refl
  usn_records_from-chain (r ∷ rs) zero position enough chain = absurd (omega arith)
  usn_records_from-chain [] (suc iterations) position enough chain =
      let short : ltb (length input) (position + 24) ≡ true =
        lt→ltb (length input) (position + 24) chain in
      rw short
  usn_records_from-chain (r ∷ rs) (suc iterations) position enough chain =
      let (parsed, rest) = chain in
      let (size, inside, _) = parse_usn_record-bounds position r parsed in
      let here : ltb (length input) (position + 24) ≡ false = ground arith in
      let long : ltb r.record_length 24 ≡ false = ground arith in
      rw (
        here,
        parsed,
        long,
        usn_records_from-chain rs iterations (position + r.record_length) (omega arith) rest,
      )

  -- The records of a chain are long.
  IsChain-size :
      (rs : List UsnRecord) (position : ℕ)
      → IsChain position rs
      → position ≤ length input
      → position + 24 * length rs ≤ length input
  IsChain-size [] position chain inside = omega (arith, inside)
  IsChain-size (r ∷ rs) position chain inside =
      let bounds = parse_usn_record-bounds position r chain.0 in
      let rest = IsChain-size rs (position + r.record_length) chain.1 (omega (arith, bounds)) in
      omega (arith, bounds, rest)

  AreInOrder-earlier :
      (rs : List UsnRecord) (position gap : ℕ)
      → AreInOrder (position + gap) rs
      → AreInOrder position rs
  AreInOrder-earlier [] position gap h = tt
  AreInOrder-earlier (r ∷ rs) position gap h = (omega (arith, h.0), h.1, h.2, h.3, h.4)

  usn_records_from-AreInOrder :
      (iterations position : ℕ)
      → AreInOrder position (usn_records_from from_ticks decode_utf16 input iterations position)
  unfolding usn_records_from
  usn_records_from-AreInOrder zero position = tt
  usn_records_from-AreInOrder (suc iterations) position =
      let again = usn_records_from from_ticks decode_utf16 input iterations in
      elim (Bool-cases (ltb (length input) (position + 24))) [
        | inl short ↦ rw short tt
        | inr long ↦ elim (Option-cases (parse_usn_record from_ticks decode_utf16 input position)) [
          | inl bad ↦
              rw (long, bad)
                (AreInOrder-earlier (again (position + 4)) position 4
                  (usn_records_from-AreInOrder iterations (position + 4)))
          | inr (r, parsed) ↦
              let (least, most, place) = parse_usn_record-bounds position r parsed in
              let big : ltb r.record_length 24 ≡ false = ground arith in
              rw (long, parsed, big)
                (
                  omega (arith, place),
                  subst (λ p. parse_usn_record from_ticks decode_utf16 input p ≡ some r) (sym place)
                      parsed,
                  least,
                  omega (arith, most, place),
                  subst (λ p. AreInOrder (p + r.record_length) (again (position + r.record_length)))
                      (sym place)
                      (usn_records_from-AreInOrder iterations (position + r.record_length)),
                )
        ]
      ]

  -- Rounds at which there is no record.
  usn_records_from-none :
      (iterations position : ℕ)
      → ((k : ℕ)
          → k < iterations
          → parse_usn_record from_ticks decode_utf16 input (position + 4 * k) ≡ none)
      → usn_records_from from_ticks decode_utf16 input iterations position ≡ []
  unfolding usn_records_from
  usn_records_from-none zero position h = refl
  usn_records_from-none (suc iterations) position h =
      let here : parse_usn_record from_ticks decode_utf16 input position ≡ none =
        subst (λ p. parse_usn_record from_ticks decode_utf16 input p ≡ none) (omega arith)
          (h 0 (omega arith)) in
      let later = usn_records_from-none iterations (position + 4) (λ k l.
        subst (λ p. parse_usn_record from_ticks decode_utf16 input p ≡ none) (omega arith)
          (h (k + 1) (omega arith))) in
      rw (here, later) (ground arith)

  -- Where records follow each other without a gap from a position to less than 24 bytes of the end,
  -- `parse_usn_records` returns all of them: its limit on the rounds is high enough.
  pub parse_usn_records-IsChain :
      (rs : List UsnRecord) (position : ℕ)
      → position ≤ length input
      → IsChain position rs
      → parse_usn_records from_ticks decode_utf16 input position ≡ rs
  unfolding parse_usn_records
  parse_usn_records-IsChain rs position inside chain =
      let size = IsChain-size rs position chain inside in
      let enough : length rs ≤ length input / 24 = omega (arith, size) in
      usn_records_from-chain rs (length input / 24) position enough chain

  -- Every record that `parse_usn_records` returns is the one at its place, has at least 24 bytes that
  -- all lie within the data, and starts at or behind the end of the one before it.
  pub parse_usn_records-AreInOrder :
      (position : ℕ)
      → AreInOrder position (parse_usn_records from_ticks decode_utf16 input position)
  unfolding parse_usn_records
  parse_usn_records-AreInOrder position = usn_records_from-AreInOrder (length input / 24) position

  -- Where there is no record at the first `length / 24` multiples of 4, which is in the first sixth of
  -- the data, `parse_usn_records` returns none at all, whatever stands behind them.
  parse_usn_records-none :
      ((k : ℕ)
        → k < length input / 24
        → parse_usn_record from_ticks decode_utf16 input (4 * k) ≡ none)
      → parse_usn_records from_ticks decode_utf16 input 0 ≡ []
  unfolding parse_usn_records
  parse_usn_records-none h = usn_records_from-none (length input / 24) 0 (λ k l.
      subst (λ p. parse_usn_record from_ticks decode_utf16 input p ≡ none) (omega arith) (h k l))
