-- ===== src/Ntfs/Attributes/Total.antt =====
-- The loop of `parse_runlist` on all bytes.
use recoverx_cli.Prelude.{
  ℕ, zero, suc, ◌+◌, ◌-◌, ◌≤◌, ◌<◌, ◌≡◌, refl, inl, inr, some, List, [], ◌∷◌, arith, Option-cases,
  length,
}
use recoverx_cli.Utils.RawReader.{Bytes}
use recoverx_cli.Ntfs.Runlist.Mapping.{RawRun}
use recoverx_cli.Ntfs.Attributes.{parse_entry, parse_from, parse_runlist}

-- An entry takes at least a byte, and stands within the bytes.
parse_entry_bounds :
    (bytes : Bytes) (position : ℕ) (run : RawRun) (size : ℕ)
    → parse_entry bytes position ≡ some (run, size)
    → (0 < size) × (position + size ≤ length bytes)
unfolding parse_entry
parse_entry_bounds bytes position run size h = ground arith

-- The rounds are enough.
parse_from_total :
    (fuel : ℕ) (bytes : Bytes) (position : ℕ)
    → length bytes - position < fuel
    → (runs : List RawRun) × (parse_from fuel bytes position ≡ some runs)
unfolding parse_from
parse_from_total zero bytes position l = absurd (omega arith)
parse_from_total (suc fuel) bytes position l = elim (Option-cases (parse_entry bytes position)) [
  | inl e ↦ rw e ([], refl)
  | inr ((run, size), e) ↦
      let (moves, inside) = parse_entry_bounds bytes position run size e in
      let (runs, rest) = parse_from_total fuel bytes (position + size) (omega arith) in
      rw (e, rest) (run ∷ runs, refl)
]

-- `parse_runlist` ends on all bytes, at any offset.
pub parse_runlist_total :
    (bytes : Bytes) (offset : ℕ) → (runs : List RawRun) × (parse_runlist bytes offset ≡ some runs)
unfolding parse_runlist
parse_runlist_total bytes offset = parse_from_total (length bytes + 1) bytes offset (omega arith)
