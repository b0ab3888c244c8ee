-- ===== src/Wolfdisk/Filesystem/Listing.antt =====
-- `readdir` of wolfdisk/src/fuse/filesystem.rs; the kernel's buffer has room for every entry.
use wolf_scale.Base.{ℕ, zero, suc, String, Option, none, some, List, [], ◌∷◌, ◌++◌, if◌then◌else◌}
use wolf_scale.Wolfdisk.Paths.{FilePath, is_child}
use wolf_scale.Wolfdisk.Index.{FileEntry}
use wolf_scale.Wolfdisk.Inodes.{InodeTable, get_inode}
use wolf_scale.Wolfdisk.Filesystem.{
  WolfDiskFs, Outcome, done, error, enoent, FileType, directory, regular_file, parent_path,
}

pub record DirEntry : Type 0 where
  pub inode : ℕ
  pub file_type : FileType
  pub name : String

abbrev pub inode_or_zero : Option ℕ → ℕ
inode_or_zero none = 0
inode_or_zero (some i) = i

abbrev pub listed : ℕ → FilePath → FileEntry → List DirEntry → List DirEntry
listed inode [] e rest = rest
listed inode (n ∷ []) e rest =
    record { inode = inode; file_type = if e.is_dir then directory else regular_file; name = n }
    ∷ rest
listed inode (n ∷ m ∷ p) e rest = listed inode (m ∷ p) e rest

unfoldable pub children : FilePath → InodeTable → List (FilePath × FileEntry) → List DirEntry
children dir t [] = []
children dir t ((path, e) ∷ rest) =
    let others = children dir t rest in
    if is_child dir path then listed (inode_or_zero (get_inode path t)) path e others else others

unfoldable pub skip : ℕ → List DirEntry → List DirEntry
skip zero es = es
skip (suc n) [] = []
skip (suc n) (e ∷ es) = skip n es

abbrev pub dots : ℕ → List DirEntry
dots ino =
    record { inode = ino; file_type = directory; name = "." }
    ∷ record { inode = ino; file_type = directory; name = ".." }
    ∷ []

abbrev pub list_dir : ℕ → ℕ → WolfDiskFs → Option FilePath → Outcome (List DirEntry)
list_dir ino offset fs none = error enoent
list_dir ino offset fs (some dir) =
    done (skip offset (dots ino ++ children dir fs.inode_table fs.file_index.entries))

unfoldable pub readdir : ℕ → ℕ → WolfDiskFs → Outcome (List DirEntry)
readdir ino offset fs = list_dir ino offset fs (parent_path ino fs)
