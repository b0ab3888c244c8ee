-- ===== src/Wolfdisk/Filesystem/Lookups.antt =====
-- What `lookup` of wolfdisk/src/fuse/filesystem.rs finds after `create`.
use wolf_scale.Base.{ℕ, ◌≡◌, some, [], arith, ◌==◌, Bool-cases, inl, inr}
use wolf_scale.Wolfdisk.Paths.{FilePath}
use wolf_scale.Wolfdisk.Inodes.{get_path}
use wolf_scale.Wolfdisk.Inodes.Agreement.{Agrees}
use wolf_scale.Wolfdisk.Filesystem.{WolfDiskFs, parent_path}
use wolf_scale.Wolfdisk.Filesystem.Valid.{IsValid}

-- Two states in which every lookup gives the same
SameNames : WolfDiskFs → WolfDiskFs → Type 0
SameNames fs fs' = (fs.file_index ≡ fs'.file_index) × (fs.inode_table ≡ fs'.inode_table)

-- The root has its path in a valid state.
parent_path-get_path :
    (parent : ℕ) (fs : WolfDiskFs) (dir : FilePath)
    → IsValid fs
    → parent_path parent fs ≡ some dir
    → get_path parent fs.inode_table ≡ some dir
unfolding parent_path Agrees
parent_path-get_path parent fs dir v h = elim (Bool-cases (parent == 1)) [
  | inl e ↦ ground (arith, e, h, v.agrees.1 1 [] v.root)
  | inr e ↦ ground (arith, e, h)
]
