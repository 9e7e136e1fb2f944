-- ===== src/Fat32/Directory/Deleted/Recovered.antt =====
-- fat32/recovery.py: when a file is recovered, and with which bytes.
use recoverx_cli.Prelude.{
  ℕ, ◌≤◌, ◌<◌, ◌≡◌, ◌≢◌, ◌↔◌, inl, inr, false, List, [], ◌∷◌, arith, ltb, Bool-cases, length, take,
  length-take, take_of_length-le,
}
use recoverx_cli.Utils.RawReader.{Bytes}
use recoverx_cli.Utils.Text.{Text}
use recoverx_cli.Fat32.BootSector.{Fat32BootSector}
use recoverx_cli.Fat32.FatTable.{Status, read_cluster_chain, read_chain_data}
use recoverx_cli.Fat32.Directory.{FatDirEntry}
use recoverx_cli.Fat32.Directory.Deleted.{
  recovered, skipped_directory, no_start_cluster, RecoveredFile, new_recovered, cut_to_size,
  finish_recovery, recover_chain, recover_deleted_file,
}

-- The cut never gives more than the size, and all bytes where there are not more.
cut_to_size-take :
    (file_size : ℕ) (input : Bytes)
    → 0 < file_size
    → cut_to_size file_size input ≡ take file_size input
unfolding cut_to_size
cut_to_size-take file_size input h =
    let whole = take_of_length-le file_size input in ground (arith, whole, h)

module _ (sha256 : Bytes → Text) where
  finish_recovery-recovered :
      (chain : List ℕ) (input : Bytes) (file : RecoveredFile)
      → 0 < file.file_size
      → let done = finish_recovery sha256 chain input file in
        (done.data_bytes ≡ take file.file_size input)
        × ((done.recovery_status ≡ recovered) ↔ (length done.data_bytes ≡ file.file_size))
  unfolding finish_recovery
  finish_recovery-recovered chain input file h =
      let cut = cut_to_size-take file.file_size input h in
      let n = length-take file.file_size input in (cut, ground (arith, cut, n, h))

  -- Of an entry of a file of some bytes, with a start cluster from 2 on that begins a chain, the first
  -- `file_size` bytes of the chain are recovered, and the status is `recovered` exactly where they are
  -- `file_size` many.
  pub recover_deleted_file-recovered :
      (image : Bytes) (bpb : Fat32BootSector) (entry : FatDirEntry) (c : ℕ) (chain : List ℕ)
      (status : Status)
      → entry.is_directory ≡ false
      → 2 ≤ entry.start_cluster
      → 0 < entry.file_size
      → read_cluster_chain image bpb entry.start_cluster 0 ≡ (c ∷ chain, status)
      → let file = recover_deleted_file sha256 image bpb entry in
        (file.data_bytes ≡ take entry.file_size (read_chain_data image bpb (c ∷ chain)))
        × ((file.recovery_status ≡ recovered) ↔ (length file.data_bytes ≡ entry.file_size))
  unfolding recover_deleted_file new_recovered finish_recovery
  recover_deleted_file-recovered image bpb entry c chain status d s n walked =
      let valid : ltb entry.start_cluster 2 ≡ false = ground arith in
      rw (d, valid, walked)
        (finish_recovery-recovered (c ∷ chain) (read_chain_data image bpb (c ∷ chain))
          (new_recovered entry) n)

  recover_chain-fails :
      (image : Bytes) (bpb : Fat32BootSector) (walked : List ℕ × Status) (file : RecoveredFile)
      → (recover_chain sha256 image bpb walked file).recovery_status ≡ recovered
      → walked.0 ≢ []
  recover_chain-fails image bpb ([], status) file h = λ e. absurd (cc)
  recover_chain-fails image bpb (c ∷ chain, status) file h = λ e. absurd (cc)

  -- A directory, a start cluster below 2 and a chain without a cluster are never called recovered.
  recover_deleted_file-fails :
      (image : Bytes) (bpb : Fat32BootSector) (entry : FatDirEntry)
      → (recover_deleted_file sha256 image bpb entry).recovery_status ≡ recovered
      → (entry.is_directory ≡ false)
        × (2 ≤ entry.start_cluster)
        × ((read_cluster_chain image bpb entry.start_cluster 0).0 ≢ [])
  unfolding recover_deleted_file
  recover_deleted_file-fails image bpb entry h = elim (Bool-cases entry.is_directory) [
    | inl directory ↦ let clash : skipped_directory ≡ recovered = rw directory at h in absurd (cc)
    | inr file ↦ elim (Bool-cases (ltb entry.start_cluster 2)) [
      | inl small ↦ let clash : no_start_cluster ≡ recovered = rw (file, small) at h in absurd (cc)
      | inr valid ↦
          let walked = read_cluster_chain image bpb entry.start_cluster 0 in
          let found = rw (file, valid) at h in
          (file, ground arith, recover_chain-fails image bpb walked _ found)
    ]
  ]
