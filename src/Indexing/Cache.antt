-- ===== src/Indexing/Cache.antt =====
-- indexing/cache.py: the caches with least-recently-used eviction, as their ordered dicts.
use recoverx_cli.Prelude.{
  ℕ, zero, suc, ◌+◌, ◌-◌, ◌≤◌, ◌<◌, ◌≡◌, refl, sym, ap, inl, inr, Option, none, some, List, [], ◌∷◌,
  ◌++◌, arith, ltb, if◌then◌else◌, Bool-cases, length, drop, length-append, length-drop, drop-nil,
}
use Prim.Native.String.{String}
use text.Mathlib.TextEquality.{eq_iff}
use recoverx_cli.Utils.Dict.{lookup, put, remove}

module _ {ℓ} {V : Type ℓ} where
  abbrev pub move_found : String → Option V → List (String × V) → List (String × V)
  move_found key none entries = entries
  move_found key (some value) entries = remove key entries ++ (key, value) ∷ []

  -- `_cache.move_to_end(key)` for a key of the dict
  unfoldable pub move_to_end : String → List (String × V) → List (String × V)
  move_to_end key entries = move_found key (lookup key entries) entries

  -- `_evict`: items are popped from the front while there are more than `max_size`.
  unfoldable pub evict : ℕ → List (String × V) → List (String × V)
  evict max_size [] = []
  evict max_size (entry ∷ entries) =
      let rest = evict max_size entries in
      if ltb max_size (length (entry ∷ entries)) then rest else entry ∷ entries

  unfoldable pub get : String → List (String × V) → Option V × List (String × V)
  unfolding move_to_end
  get key entries = (lookup key entries, move_to_end key entries)

  unfoldable pub set : ℕ → String → V → List (String × V) → List (String × V)
  unfolding move_to_end evict
  set max_size key value entries = evict max_size (move_to_end key (put key value entries))

  unfoldable pub update : List (String × V) → List (String × V) → List (String × V)
  update [] entries = entries
  update ((key, value) ∷ items) entries = update items (put key value entries)

  unfoldable pub move_all : List (String × V) → List (String × V) → List (String × V)
  move_all [] entries = entries
  move_all ((key, value) ∷ items) entries = move_all items (move_to_end key entries)

  unfoldable pub set_many : ℕ → List (String × V) → List (String × V) → List (String × V)
  set_many max_size items entries = evict max_size (move_all items (update items entries))

  unfoldable pub delete : String → List (String × V) → List (String × V)
  delete key entries = remove key entries

  lookup-put_same :
      (key : String) (value : V) (entries : List (String × V))
      → lookup key (put key value entries) ≡ some value
  unfolding lookup put
  lookup-put_same key value [] = ground (arith, eq_iff key key)
  lookup-put_same key value ((j, w) ∷ entries) =
      ground (arith, eq_iff key key, lookup-put_same key value entries)

  evict-drop :
      (max_size : ℕ) (entries : List (String × V))
      → evict max_size entries ≡ drop (length entries - max_size) entries
  unfolding evict
  evict-drop max_size [] = sym (drop-nil (0 - max_size))
  evict-drop max_size (entry ∷ entries) =
      elim (Bool-cases (ltb max_size (length (entry ∷ entries)))) [
        | inl more ↦
            let next : suc (length entries) - max_size ≡ suc (length entries - max_size) =
              ground arith in
            rw (more, next) (evict-drop max_size entries)
        | inr fits ↦
            let none_left : suc (length entries) - max_size ≡ 0 = ground arith in
            rw (fits, none_left) refl
      ]

  move_known :
      (key : String) (value : V) (entries : List (String × V))
      → lookup key entries ≡ some value
      → move_to_end key entries ≡ remove key entries ++ (key, value) ∷ []
  unfolding move_to_end
  move_known key value entries e = ap (λ found. move_found key found entries) e

  remove-put :
      (key : String) (value : V) (entries : List (String × V))
      → remove key (put key value entries) ≡ remove key entries
  unfolding remove put
  remove-put key value [] = ground (arith, eq_iff key key)
  remove-put key value ((j, w) ∷ entries) =
      ground (arith, eq_iff key key, eq_iff j key, remove-put key value entries)

  lookup-remove :
      (key : String) (entries : List (String × V)) → lookup key (remove key entries) ≡ none
  unfolding lookup remove
  lookup-remove key [] = refl
  lookup-remove key ((j, w) ∷ entries) = ground (arith, lookup-remove key entries)

  lookup-drop :
      (n : ℕ) (key : String) (value : V) (entries : List (String × V))
      → lookup key entries ≡ none
      → n ≤ length entries
      → lookup key (drop n (entries ++ (key, value) ∷ [])) ≡ some value
  unfolding lookup
  lookup-drop zero key value [] h l = ground (arith, eq_iff key key)
  lookup-drop zero key value ((j, w) ∷ entries) h l =
      ground (arith, lookup-drop zero key value entries)
  lookup-drop (suc n) key value [] h l = absurd (omega arith)
  lookup-drop (suc n) key value ((j, w) ∷ entries) h l =
      lookup-drop n key value entries (ground arith) (omega arith)

  -- With a positive bound, `set` makes the value the newest entry and then evicts exactly as many of
  -- the oldest entries as there are beyond the bound, so that the cache is not larger than its bound;
  -- and the key has the value.
  pub set-newest :
      (max_size : ℕ) (key : String) (value : V) (entries : List (String × V))
      → 0 < max_size
      → let after = set max_size key value entries in
        (length after ≤ max_size)
        × (after
            ≡ drop
                (length (remove key entries ++ (key, value) ∷ []) - max_size)
                (remove key entries ++ (key, value) ∷ []))
        × (lookup key after ≡ some value)
  unfolding set
  set-newest max_size key value entries l =
      let others = remove key entries in
      let newest = others ++ (key, value) ∷ [] in
      let size = length-append others ((key, value) ∷ []) in
      rw
        (
          move_known key value (put key value entries) (lookup-put_same key value entries),
          remove-put key value entries,
          evict-drop max_size newest,
        )
        (
          omega (arith, length-drop (length newest - max_size) newest),
          refl,
          lookup-drop (length newest - max_size) key value others (lookup-remove key entries)
              (omega (arith, size)),
        )

-- `HitTrackingCache`: the cache with its counts
pub record HitTrackingCache {ℓ} (V : Type ℓ) : Type ℓ where
  pub entries : List (String × V)
  pub hits : ℕ
  pub misses : ℕ

unfoldable pub get_tracked {ℓ} :
    {V : Type ℓ} → String → HitTrackingCache V → Option V × HitTrackingCache V
unfolding get
get_tracked key cache =
    let (result, after) = get key cache.entries in
    elim result [
      | none ↦ (none, record cache { entries = after; misses = cache.misses + 1 })
      | some value ↦ (some value, record cache { entries = after; hits = cache.hits + 1 })
    ]
