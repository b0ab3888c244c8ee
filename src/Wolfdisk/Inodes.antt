-- ===== src/Wolfdisk/Inodes.antt =====
-- wolfdisk/src/storage/inode.rs: the inode table of the mounted file system. A path is the list of its components.
pub mod Agreement
mod Tests
use wolf_scale.Base.{
  ℕ, zero, suc, Option, none, some, List, [], ◌∷◌, find, set, unset, get, put, take_out,
}
use wolf_scale.Wolfdisk.Paths.{FilePath, path_keys}

pub record InodeTable : Type 0 where
  pub inode_to_path : List (ℕ × FilePath)
  pub path_to_inode : List (FilePath × ℕ)

abbrev pub root_inode : ℕ
root_inode = 1

-- `InodeTable::insert`
unfoldable pub add : ℕ → FilePath → InodeTable → InodeTable
add inode path t = record {
  inode_to_path = put inode path t.inode_to_path;
  path_to_inode = set path inode t.path_to_inode;
}

unfoldable pub new : InodeTable
new = add root_inode [] (record { inode_to_path = []; path_to_inode = [] })

abbrev pub assign : List FilePath → InodeTable × ℕ → InodeTable × ℕ
assign [] s = s
assign (path ∷ paths) (t, max_inode) = assign paths (add (suc max_inode) path t, suc max_inode)

-- `from_index`, on the paths of the index
unfoldable pub from_index : List FilePath → InodeTable × ℕ
from_index paths = assign paths (new, root_inode)

unfoldable pub get_path : ℕ → InodeTable → Option FilePath
get_path inode t = get inode t.inode_to_path

unfoldable pub get_inode : FilePath → InodeTable → Option ℕ
get_inode path t = find path t.path_to_inode

abbrev pub without_path : FilePath → InodeTable → Option ℕ → Option ℕ × InodeTable
without_path path t none = (none, t)
without_path path t (some inode) = (
  some inode,
  record {
    inode_to_path = take_out inode t.inode_to_path;
    path_to_inode = unset path t.path_to_inode;
  },
)

unfoldable pub remove_path : FilePath → InodeTable → Option ℕ × InodeTable
remove_path path t = without_path path t (find path t.path_to_inode)

abbrev pub without_inode : ℕ → InodeTable → Option FilePath → Option FilePath × InodeTable
without_inode inode t none = (none, t)
without_inode inode t (some path) = (
  some path,
  record {
    inode_to_path = take_out inode t.inode_to_path;
    path_to_inode = unset path t.path_to_inode;
  },
)

unfoldable pub remove_inode : ℕ → InodeTable → Option FilePath × InodeTable
remove_inode inode t = without_inode inode t (get inode t.inode_to_path)
