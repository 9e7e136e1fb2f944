-- ===== src/Ntfs/Attributes/Header/Order.antt =====
-- The attributes that `parse_attributes` returns.
use recoverx_cli.Prelude.{
  ℕ, zero, suc, ◌+◌, ◌-◌, ◌≤◌, ◌<◌, ◌≡◌, refl, ◌⊎◌, inl, inr, Option, none, some, List, [], ◌∷◌,
  arith, ltb, ◌==◌, if◌then◌else◌, ltb→lt, ==_iff, Bool-cases, length,
}
use recoverx_cli.Utils.RawReader.{Bytes}
use recoverx_cli.Utils.Text.{Text}
use recoverx_cli.Ntfs.Attributes.Header.{
  Attribute, parse_attribute_header, add_attribute, attributes_from, parse_attributes,
}

shrinks :
    (offset size step fuel : ℕ)
    → offset < size
    → 0 < step
    → size - offset < suc fuel
    → size - (offset + step) < fuel
shrinks offset size step fuel l m n = omega arith

module _ (decode_utf16 : Bytes → Text) where
  -- No attribute is read at a place: it is behind the data, or not the start of an attribute.
  abbrev pub NoAttribute : Bytes → ℕ → Type 0
  NoAttribute input offset =
      (length input ≤ offset) ⊎ (parse_attribute_header decode_utf16 input offset ≡ none)

  -- Attributes one behind the other from a place on, to the first place with none or to one of the
  -- length 0.
  abbrev pub AreConsecutive : Bytes → ℕ → List Attribute → Type 0
  AreConsecutive input offset [] = NoAttribute input offset
  AreConsecutive input offset (a ∷ []) =
      (parse_attribute_header decode_utf16 input offset ≡ some a)
      × ((a.header.length ≡ 0) ⊎ NoAttribute input (offset + a.header.length))
  AreConsecutive input offset (a ∷ b ∷ attributes) =
      (parse_attribute_header decode_utf16 input offset ≡ some a)
      × (0 < a.header.length)
      × AreConsecutive input (offset + a.header.length) (b ∷ attributes)

  abbrev ReadsFrom : Bytes → ℕ → Option (List Attribute) → Type 0
  ReadsFrom input offset result =
      (attributes : List Attribute) × (result ≡ some attributes)
      × AreConsecutive input offset attributes

  ReadsFrom-add :
      (input : Bytes) (offset : ℕ) (a : Attribute) (rest : Option (List Attribute))
      → parse_attribute_header decode_utf16 input offset ≡ some a
      → 0 < a.header.length
      → ReadsFrom input (offset + a.header.length) rest
      → ReadsFrom input offset (add_attribute decode_utf16 a rest)
  ReadsFrom-add input offset a rest e l ([], same, none_left) =
      rw same (a ∷ [], refl, (e, inr none_left))
  ReadsFrom-add input offset a rest e l (b ∷ attributes, same, more) =
      rw same (a ∷ b ∷ attributes, refl, (e, l, more))

  ReadsFrom-round :
      (fuel : ℕ) (input : Bytes) (offset : ℕ) (found : Option Attribute)
      → parse_attribute_header decode_utf16 input offset ≡ found
      → ((a : Attribute)
          → 0 < a.header.length
          → ReadsFrom input
              (offset + a.header.length)
              (attributes_from decode_utf16 fuel input (offset + a.header.length)))
      → ReadsFrom input offset (elim found [
        | none ↦ some []
        | some a ↦
            if a.header.length == 0
            then some (a ∷ [])
            else add_attribute decode_utf16 a
                (attributes_from decode_utf16 fuel input (offset + a.header.length))
      ])
  ReadsFrom-round fuel input offset none e rest = ([], refl, inr e)
  ReadsFrom-round fuel input offset (some a) e rest = elim (Bool-cases (a.header.length == 0)) [
    | inl empty ↦ rw empty (a ∷ [], refl, (e, inl ((==_iff _ _).0 empty)))
    | inr more ↦
        let positive : 0 < a.header.length = ground arith in
        rw more (ReadsFrom-add input offset a _ e positive (rest a positive))
  ]

  attributes_from-ReadsFrom :
      (fuel : ℕ) (input : Bytes) (offset : ℕ)
      → length input - offset < fuel
      → ReadsFrom input offset (attributes_from decode_utf16 fuel input offset)
  unfolding attributes_from
  attributes_from-ReadsFrom zero input offset l = absurd (omega arith)
  attributes_from-ReadsFrom (suc fuel) input offset l =
      elim (Bool-cases (ltb offset (length input))) [
        | inl inside ↦ rw inside (
            ReadsFrom-round fuel input offset (parse_attribute_header decode_utf16 input offset)
              refl
              (λ a positive. attributes_from-ReadsFrom fuel input (offset + a.header.length) (
                shrinks offset (length input) a.header.length fuel (ltb→lt _ _ inside) positive l)))
        | inr outside ↦ rw outside ([], refl, inl (ground arith))
      ]

  -- `parse_attributes` ends, and returns the attributes that stand one behind the other from the start
  -- of the data on, to the first place where none is read or to an attribute of the length 0.
  pub parse_attributes-AreConsecutive :
      (input : Bytes)
      → (attributes : List Attribute) × (parse_attributes decode_utf16 input ≡ some attributes)
        × AreConsecutive input 0 attributes
  unfolding parse_attributes
  parse_attributes-AreConsecutive input =
      attributes_from-ReadsFrom (length input + 1) input 0 (omega arith)
