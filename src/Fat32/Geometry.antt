-- ===== src/Fat32/Geometry.antt =====
-- What fat32/boot_sector.py accepts, and where the clusters of an accepted volume lie.
use recoverx_cli.Prelude.{
  ℕ, zero, suc, ◌+◌, ◌-◌, ◌*◌, ◌/◌, ◌≤◌, ◌<◌, ◌≡◌, refl, inl, inr, Bool, true, false, ◌&&◌, ◌||◌,
  [], arith, leb, ◌==◌, leb→le, Bool-cases,
}
use recoverx_cli.Prelude.Int.{pos, ◌≤ℤ◌}
use native.Mathlib.Nat.{mul-le-mul_right, div-add-mod}
use recoverx_cli.Fat32.FatTable.{cluster_offset}
use recoverx_cli.Fat32.BootSector.{
  Fat32BootSector, cluster_size, fat_start, data_start, total_clusters, not_power_of_2,
  is_sector_size, validate_boot_sector,
}

-- The test holds of every number below the bound.
holds_below : (ℕ → Bool) → ℕ → Bool
holds_below test zero = true
holds_below test (suc bound) = holds_below test bound && test bound

holds_below_lem :
    (test : ℕ → Bool) (bound k : ℕ) → k < bound → holds_below test bound ≡ true → test k ≡ true
unfolding holds_below
holds_below_lem test (suc bound) k below table = ground (arith, holds_below_lem test bound k)
holds_below_lem test zero k below table = absurd (omega arith)

-- The powers of two in a byte.
abbrev pub is_cluster_ratio : ℕ → Bool
is_cluster_ratio n =
    n == 1 || (n == 2 || (n == 4 || (n == 8 || (n == 16 || (n == 32 || (n == 64 || n == 128))))))

power_table : holds_below (λ n. not_power_of_2 n || is_cluster_ratio n) 256 ≡ true
unfolding holds_below not_power_of_2
power_table = refl

not_power_of_2-is_cluster_ratio :
    (n : ℕ) → n < 256 → not_power_of_2 n ≡ false → is_cluster_ratio n ≡ true
not_power_of_2-is_cluster_ratio n h e =
    let table =
      holds_below_lem (λ (k : ℕ). not_power_of_2 k || is_cluster_ratio k) 256 n h power_table in
    ground (arith, table)

-- A boot sector that `validate_boot_sector` reports nothing of.
pub record IsPlausible (bpb : Fat32BootSector) : Type 0 where
  pub sector_size : is_sector_size bpb.bytes_per_sector ≡ true
  pub cluster_ratio : not_power_of_2 bpb.sectors_per_cluster ≡ false
  pub some_sectors : 0 < bpb.sectors_per_cluster
  pub one_fat : 1 ≤ bpb.fat_count
  pub two_fats : bpb.fat_count ≤ 2
  pub fat_size : 0 < bpb.fat_size_sectors
  pub root : 2 ≤ bpb.root_cluster
  pub signature : bpb.signature_valid ≡ true
  pub enough_clusters : pos 65525 ≤ℤ total_clusters bpb

validate_boot_sector-IsPlausible :
    (bpb : Fat32BootSector) → validate_boot_sector bpb ≡ [] → IsPlausible bpb
unfolding validate_boot_sector
validate_boot_sector-IsPlausible bpb h = ground arith

IsPlausible-validate_boot_sector :
    (bpb : Fat32BootSector) → IsPlausible bpb → validate_boot_sector bpb ≡ []
unfolding validate_boot_sector
IsPlausible-validate_boot_sector bpb h = ground arith

div_mul_le : (n d : ℕ) → n / d * d ≤ n
div_mul_le n d = omega (arith, div-add-mod n d)

total_clusters_fit :
    (bpb : Fat32BootSector) (total : ℕ)
    → 0 < bpb.sectors_per_cluster
    → total_clusters bpb ≡ pos total
    → bpb.reserved_sectors + bpb.fat_count * bpb.fat_size_sectors + total * bpb.sectors_per_cluster
      ≤ bpb.total_sectors
unfolding total_clusters
total_clusters_fit bpb total h t =
    let used = bpb.reserved_sectors + bpb.fat_count * bpb.fat_size_sectors in
    elim (Bool-cases (leb used bpb.total_sectors)) [
      | inr e ↦ absurd (ground arith)
      | inl e ↦
          let q : (bpb.total_sectors - used) / bpb.sectors_per_cluster ≡ total = ground arith in
          let m = div_mul_le (bpb.total_sectors - used) bpb.sectors_per_cluster in
          omega (arith, rw q at m, leb→le _ _ e)
    ]

sector_size_pos : (n : ℕ) → is_sector_size n ≡ true → 0 < n
unfolding is_sector_size
sector_size_pos n h = ground arith

mul_pos : {a b : ℕ} → 0 < a → 0 < b → 0 < a * b
mul_pos h k = grind arith

rows_fit :
    (used k total ratio sectors sector : ℕ)
    → used + total * ratio ≤ sectors
    → k < total
    → used * sector + k * (sector * ratio) + sector * ratio ≤ sectors * sector
rows_fit used k total ratio sectors sector h l =
    let a : (k + 1) * ratio ≤ total * ratio = mul-le-mul_right ratio (omega arith) in
    let b : (used + (k + 1) * ratio) * sector ≤ sectors * sector =
      mul-le-mul_right sector (omega (arith, a)) in
    omega (arith, b)

-- The data clusters of a boot sector that `validate_boot_sector` accepts: those from 2 on, as many
-- as `total_clusters` says, lie behind the FATs and inside the volume, none is empty, and each ends
-- where the next begins.
pub cluster_offset_bounds :
    (bpb : Fat32BootSector) (cluster total : ℕ)
    → validate_boot_sector bpb ≡ []
    → total_clusters bpb ≡ pos total
    → 2 ≤ cluster
    → cluster < total + 2
    → (fat_start bpb + bpb.fat_count * bpb.fat_size_sectors * bpb.bytes_per_sector
        ≤ cluster_offset bpb cluster)
      × (cluster_offset bpb cluster + cluster_size bpb ≤ bpb.total_sectors * bpb.bytes_per_sector)
      × (cluster_offset bpb cluster + cluster_size bpb ≡ cluster_offset bpb (cluster + 1))
      × (0 < cluster_size bpb)
unfolding cluster_offset cluster_size fat_start data_start
cluster_offset_bounds bpb cluster total h t low high =
    let p = validate_boot_sector-IsPlausible bpb h in
    let used = bpb.reserved_sectors + bpb.fat_count * bpb.fat_size_sectors in
    let k = cluster - 2 in
    let next : cluster + 1 - 2 ≡ k + 1 = omega arith in
    (
      omega arith,
      omega (
        arith,
        rows_fit used k total bpb.sectors_per_cluster bpb.total_sectors bpb.bytes_per_sector
            (total_clusters_fit bpb total p.some_sectors t) (omega arith),
      ),
      rw next (omega arith),
      mul_pos (sector_size_pos bpb.bytes_per_sector p.sector_size) p.some_sectors,
    )
