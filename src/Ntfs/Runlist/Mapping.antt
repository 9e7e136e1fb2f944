-- ===== src/Ntfs/Runlist/Mapping.antt =====
-- runlists/mapping.py: the runs of a runlist, and the translation of virtual to logical clusters.
use recoverx_cli.Prelude.{
  ℕ, ◌+◌, ◌*◌, Bool, true, false, Option, none, some, ◌&&◌, List, [], ◌∷◌, if◌then◌else◌,
}
use recoverx_cli.Prelude.Int.{ℤ, pos, negsuc, ◌+ℤ◌, ◌-ℤ◌, ◌*ℤ◌, leb_ℤ, sub_ℕ}

-- The dict that `parse_runlist` appends for each run.
pub record RawRun : Type 0 where
  pub cluster_count : ℕ
  pub cluster_offset : ℤ
  pub is_sparse : Bool

-- `vcn_end` is an integer: the end of an empty run at VCN 0 is -1.
pub record DataRun : Type 0 where
  pub vcn_start : ℕ
  pub vcn_end : ℤ
  pub lcn : ℤ
  pub cluster_count : ℕ
  pub is_sparse : Bool
  pub relative_offset : ℤ

-- `current_lcn` after the run
unfoldable pub next_lcn : ℤ → RawRun → ℤ
next_lcn lcn r = if r.is_sparse then lcn else lcn +ℤ r.cluster_offset

-- the `DataRun` that one round of `resolve_runlist` appends
unfoldable pub resolve_run : ℕ → ℤ → RawRun → DataRun
unfolding next_lcn
resolve_run vcn lcn r =
    if r.is_sparse
    then (record {
      vcn_start = vcn;
      vcn_end = sub_ℕ (vcn + r.cluster_count) 1;
      lcn = negsuc 0;
      cluster_count = r.cluster_count;
      is_sparse = true;
      relative_offset = pos 0;
    })
    else (record {
      vcn_start = vcn;
      vcn_end = sub_ℕ (vcn + r.cluster_count) 1;
      lcn = next_lcn lcn r;
      cluster_count = r.cluster_count;
      is_sparse = false;
      relative_offset = r.cluster_offset;
    })

-- the loop, from `current_vcn` and `current_lcn`
unfoldable pub resolve_from : ℕ → ℤ → List RawRun → List DataRun
resolve_from vcn lcn [] = []
resolve_from vcn lcn (r ∷ rs) =
    resolve_run vcn lcn r ∷ resolve_from (vcn + r.cluster_count) (next_lcn lcn r) rs

unfoldable pub resolve_runlist : List RawRun → List DataRun
resolve_runlist = resolve_from 0 (pos 0)

-- `run.vcn_start <= vcn <= run.vcn_end`
unfoldable pub covers : DataRun → ℤ → Bool
covers run vcn = leb_ℤ (pos run.vcn_start) vcn && leb_ℤ vcn run.vcn_end

-- -1 for a sparse cluster, -2 where no run covers the VCN
unfoldable pub vcn_to_lcn : ℤ → List DataRun → ℤ
unfolding covers
vcn_to_lcn vcn [] = negsuc 1
vcn_to_lcn vcn (run ∷ runs) =
    if covers run vcn
    then (if run.is_sparse then negsuc 0 else run.lcn +ℤ (vcn -ℤ pos run.vcn_start))
    else vcn_to_lcn vcn runs

-- An entry of `runs_to_byte_offsets`; the dict of a sparse run has no "lcn".
pub record ByteRun : Type 0 where
  pub byte_offset : ℤ
  pub byte_length : ℕ
  pub is_sparse : Bool
  pub lcn : Option ℤ
  pub vcn_start : ℕ
  pub vcn_end : ℤ

unfoldable pub byte_run : ℕ → DataRun → ByteRun
byte_run cluster_size run =
    if run.is_sparse
    then (record {
      byte_offset = negsuc 0;
      byte_length = run.cluster_count * cluster_size;
      is_sparse = true;
      lcn = none;
      vcn_start = run.vcn_start;
      vcn_end = run.vcn_end;
    })
    else (record {
      byte_offset = run.lcn *ℤ cluster_size;
      byte_length = run.cluster_count * cluster_size;
      is_sparse = false;
      lcn = some run.lcn;
      vcn_start = run.vcn_start;
      vcn_end = run.vcn_end;
    })

unfoldable pub runs_to_byte_offsets : List DataRun → ℕ → List ByteRun
runs_to_byte_offsets [] cluster_size = []
runs_to_byte_offsets (run ∷ runs) cluster_size =
    byte_run cluster_size run ∷ runs_to_byte_offsets runs cluster_size
