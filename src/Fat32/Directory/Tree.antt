-- ===== src/Fat32/Directory/Tree.antt =====
-- fat32/directory.py: the walk over the tree of directories.
use recoverx_cli.Prelude.{
  ℕ, zero, suc, ◌+◌, Bool, not, ◌&&◌, ◌||◌, List, [], ◌∷◌, ◌++◌, leb, ◌==◌, if◌then◌else◌,
}
use recoverx_cli.Utils.RawReader.{Bytes}
use recoverx_cli.Utils.Text.{Text, text, text_eq}
use recoverx_cli.Fat32.BootSector.{Fat32BootSector}
use recoverx_cli.Fat32.FatTable.{contains}
use recoverx_cli.Fat32.Directory.{FatDirEntry, read_directory}

abbrev pub join_path : Text → Text → Text
join_path [] name = name
join_path (c ∷ path) name = (c ∷ path) ++ (47 ∷ name)

abbrev pub is_dot_name : Text → Bool
is_dot_name name = text_eq name (text ".") || text_eq name (text "..")

-- `_walk`, for the depths that are left. `walk_entries` is its loop, and `walk_below` the call for a
-- directory of the entries.
unfoldable pub walk_entries :
    (ℕ → Text → List (Text × FatDirEntry))
    → Text
    → List ℕ
    → List FatDirEntry
    → List (Text × FatDirEntry)
unfolding contains text_eq
walk_entries walk_below path visited [] = []
walk_entries walk_below path visited (entry ∷ entries) =
    let full_path = join_path path entry.short_name in
    let enters = leb 2 entry.start_cluster && not (contains entry.start_cluster visited) in
    let is_subdirectory = entry.is_directory && not (is_dot_name entry.short_name) in
    let skipped = entry.is_volume_label || entry.deleted in
    let seen =
      if not skipped && (is_subdirectory && enters)
      then entry.start_cluster ∷ visited
      else visited in
    let rest = walk_entries walk_below path seen entries in
    if skipped
    then rest
    else if is_subdirectory
    then (full_path, entry)
      ∷ ((if enters then walk_below entry.start_cluster full_path else []) ++ rest)
    else if not entry.is_directory
    then (full_path, entry) ∷ rest
    else rest

unfoldable pub walk : ℕ → Bytes → Fat32BootSector → ℕ → Text → List (Text × FatDirEntry)
unfolding walk_entries read_directory
walk zero image bpb cluster path = []
walk (suc depths) image bpb cluster path =
    walk_entries (walk depths image bpb) path [] (read_directory image bpb cluster 0)

unfoldable pub walk_directory_tree :
    Bytes → Fat32BootSector → ℕ → Text → ℕ → List (Text × FatDirEntry)
unfolding walk
walk_directory_tree image bpb cluster path max_depth =
    walk (max_depth + 1) image bpb (if cluster == 0 then bpb.root_cluster else cluster) path
