-- ===== src/Wolfdisk/Index.antt =====
-- wolfdisk/src/storage/index.rs: the metadata of the files by path. What the JSON on the disk says is
-- an argument.
use wolf_scale.Base.{
  ℕ, String, Bool, true, false, Option, none, some, List, [], ◌∷◌, ◌==◌, if◌then◌else◌, find, set,
  unset, length, any,
}
use wolf_scale.Wolfdisk.Paths.{FilePath, path_keys, is_child}
use wolf_scale.Wolfdisk.Chunks.{ChunkRef}

pub record FileEntry : Type 0 where
  pub size : ℕ
  pub is_dir : Bool
  pub permissions : ℕ
  pub uid : ℕ
  pub gid : ℕ
  pub created : ℕ
  pub modified : ℕ
  pub accessed : ℕ
  pub chunks : List ChunkRef
  pub symlink_target : Option String

pub record FileIndex : Type 0 where
  pub entries : List (FilePath × FileEntry)
  pub version : ℕ

abbrev pub index_version : ℕ
index_version = 1

abbrev pub new : FileIndex
new = record { entries = []; version = index_version }

-- `load_or_create`, on what is in the file, if there is one
unfoldable pub load_or_create : Option FileIndex → FileIndex
load_or_create none = new
load_or_create (some index) = if index.version == index_version then index else new

unfoldable pub entry_of : FilePath → FileIndex → Option FileEntry
entry_of path index = find path index.entries

abbrev pub is_some : {A : Type 0} → Option A → Bool
is_some none = false
is_some (some a) = true

unfoldable pub contains : FilePath → FileIndex → Bool
contains path index = is_some (entry_of path index)

unfoldable pub add_entry : FilePath → FileEntry → FileIndex → FileIndex
add_entry path entry index = record index { entries = set path entry index.entries }

unfoldable pub remove_entry : FilePath → FileIndex → FileIndex
remove_entry path index = record index { entries = unset path index.entries }

-- `get_mut` followed by a change
unfoldable pub change_entry : FilePath → (FileEntry → FileEntry) → FileIndex → FileIndex
change_entry path f index = elim (entry_of path index) [
  | none ↦ index
  | some entry ↦ add_entry path (f entry) index
]

abbrev pub paths_of : List (FilePath × FileEntry) → List FilePath
paths_of [] = []
paths_of ((path, entry) ∷ rest) = path ∷ paths_of rest

abbrev pub paths : FileIndex → List FilePath
paths index = paths_of index.entries

abbrev pub len : FileIndex → ℕ
len index = length index.entries

-- The loops of `rmdir` and `rename` over the paths
unfoldable pub has_children : FilePath → FileIndex → Bool
has_children dir index = any (is_child dir) (paths index)
