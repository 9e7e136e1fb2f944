-- ===== src/Carving/Streaming/Windows.antt =====
-- The windows of the scanner as ranges of the image.
use recoverx_cli.Prelude.{
  ℕ, zero, suc, ◌+◌, ◌-◌, ◌≤◌, ◌<◌, min, ◌≡◌, refl, sym, inl, inr, false, [], ◌∷◌, ◌++◌, arith, ltb,
  ◌==◌, ltb→lt, Bool-cases, length, take, drop, take-zero, take-nil, take-take, drop-drop, take-add,
}
use recoverx_cli.Utils.RawReader.{Bytes}
use recoverx_cli.Utils.Unpack.{slice, length-slice}
use recoverx_cli.Carving.Streaming.{last_bytes, slide, slide_base}

drop-take : (n m : ℕ) (xs : Bytes) → drop n (take m xs) ≡ take (m - n) (drop n xs)
drop-take zero m xs = let same : m - 0 ≡ m = omega arith in rw same refl
drop-take (suc n) zero xs = sym (take-zero (0 - suc n) (drop (suc n) xs) (omega arith))
drop-take (suc n) (suc m) [] = take-nil (suc m - suc n)
drop-take (suc n) (suc m) (x ∷ xs) =
    let same : suc m - suc n ≡ m - n = omega arith in rw same (drop-take n m xs)

-- A range of a window is a range of the image.
pub slice-slice :
    (image : Bytes) (base cursor start end : ℕ)
    → base + end ≤ cursor
    → slice (slice image base cursor) start end ≡ slice image (base + start) (base + end)
unfolding slice
slice-slice image base cursor start end l =
    let kept : min (end - start) (cursor - base - start) ≡ base + end - (base + start) =
      omega arith in
    rw (
      drop-take start (cursor - base) (drop base image),
      take-take (end - start) (cursor - base - start) (drop start (drop base image)),
      drop-drop start base image,
      kept,
    )

-- A window with the chunk behind it.
pub slice-append :
    (image : Bytes) (base cursor size : ℕ)
    → base ≤ cursor
    → slice image base cursor ++ take size (drop cursor image) ≡ slice image base (cursor + size)
unfolding slice
slice-append image base cursor size l =
    let longer : cursor + size - base ≡ cursor - base + size = omega arith in
    let same : base + (cursor - base) ≡ cursor = omega arith in
    rw (
      longer,
      take-add (cursor - base) size (drop base image),
      drop-drop (cursor - base) base image,
      same,
    )

kept_range :
    (image : Bytes) (overlap base cursor : ℕ)
    → base ≤ cursor
    → overlap < cursor - base
    → drop (cursor - base - overlap) (slice image base cursor)
      ≡ slice image (cursor - overlap) cursor
unfolding slice
kept_range image overlap base cursor l m =
    let place : base + (cursor - base - overlap) ≡ cursor - overlap = omega arith in
    let width : cursor - base - (cursor - base - overlap) ≡ cursor - (cursor - overlap) =
      omega arith in
    rw
      (
        drop-take (cursor - base - overlap) (cursor - base) (drop base image),
        drop-drop (cursor - base - overlap) base image,
        place,
        width,
      )
      refl

-- The window that is kept is the range that ends at the cursor.
pub slide-slice :
    (image : Bytes) (overlap base cursor : ℕ)
    → 0 < overlap
    → base ≤ cursor
    → cursor ≤ length image
    → let window = slice image base cursor in
      slide overlap window ≡ slice image (slide_base overlap window base cursor) cursor
unfolding slide slide_base last_bytes
slide-slice image overlap base cursor positive l m =
    let size : length (slice image base cursor) ≡ cursor - base =
      omega (arith, length-slice image base cursor) in
    rw size (elim (Bool-cases (ltb overlap (cursor - base))) [
      | inl e ↦ rw e (
          let nonzero : (overlap == 0) ≡ false = ground arith in
          rw nonzero (kept_range image overlap base cursor l (ltb→lt _ _ e)))
      | inr e ↦ rw e refl
    ])
