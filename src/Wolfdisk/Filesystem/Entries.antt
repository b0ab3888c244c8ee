-- ===== src/Wolfdisk/Filesystem/Entries.antt =====
-- The calls of wolfdisk/src/fuse/filesystem.rs that find entries and make them: `lookup`, `getattr`,
-- `mkdir`, `create`, `open`, `symlink`, `readlink`, `link` and `mknod`. What the leader answers to a
-- call that is forwarded is an argument.
use wolf_scale.Base.{
  ℕ, ◌%◌, ◌/◌, String, Bool, true, false, Option, none, some, [], ◌==◌, not, ◌&&◌, if◌then◌else◌,
}
use wolf_scale.Wolfdisk.Paths.{FilePath, join}
use wolf_scale.Wolfdisk.Index.{FileEntry, entry_of, contains}
use wolf_scale.Wolfdisk.Inodes.{root_inode, get_path, get_inode}
use wolf_scale.Wolfdisk.Filesystem.{
  WolfDiskFs, Request, Outcome, done, error, enoent, eexist, eperm, einval, enotsup, FileAttr,
  directory, symlink_file, IndexOperation, upsert, entry_to_attr, is_leader, open_handle,
  broadcast_index_update, parent_path, link_in,
}

abbrev pub found : Option FileEntry → Option ℕ → Outcome FileAttr
found none _ = error enoent
found (some entry) none = error enoent
found (some entry) (some inode) = done (entry_to_attr entry inode)

abbrev pub lookup_in : Option FilePath → String → WolfDiskFs → Outcome FileAttr
lookup_in none name fs = error enoent
lookup_in (some dir) name fs =
    let path = join dir name in found (entry_of path fs.file_index) (get_inode path fs.inode_table)

unfoldable pub lookup : ℕ → String → WolfDiskFs → Outcome FileAttr
lookup parent name fs = lookup_in (get_path parent fs.inode_table) name fs

-- `root_attr`, for the user of the process
unfoldable pub root_attr : ℕ → Request → FileAttr
root_attr now user = record {
  ino = root_inode;
  size = 0;
  blocks = 0;
  atime = now;
  mtime = now;
  ctime = now;
  crtime = now;
  kind = directory;
  perm = 511;
  nlink = 2;
  uid = user.uid;
  gid = user.gid;
}

abbrev pub attr_of : ℕ → Option FilePath → WolfDiskFs → Outcome FileAttr
attr_of ino none fs = error enoent
attr_of ino (some path) fs = found (entry_of path fs.file_index) (some ino)

unfoldable pub getattr : ℕ → Request → ℕ → WolfDiskFs → Outcome FileAttr
getattr now user ino fs =
    if ino == root_inode
    then done (root_attr now user)
    else attr_of ino (get_path ino fs.inode_table) fs

abbrev pub new_entry : Bool → ℕ → ℕ → Request → FileEntry
new_entry is_dir mode now req = record {
  size = 0;
  is_dir = is_dir;
  permissions = mode;
  uid = req.uid;
  gid = req.gid;
  created = now;
  modified = now;
  accessed = now;
  chunks = [];
  symlink_target = none;
}

-- The path of a new entry, and what is done with it
abbrev pub at :
    {A : Type 0}
    → ℕ
    → String
    → WolfDiskFs
    → (FilePath → Outcome A × WolfDiskFs)
    → Outcome A × WolfDiskFs
at parent name fs act = elim (parent_path parent fs) [
  | none ↦ (error enoent, fs)
  | some dir ↦ act (join dir name)
]

-- What a follower does with the leader's answer
abbrev pub forwarded :
    {A : Type 0} → Outcome (Unit {0}) → WolfDiskFs → Outcome A × WolfDiskFs → Outcome A × WolfDiskFs
forwarded (error e) fs next = (error e, fs)
forwarded (done _) fs next = next

abbrev pub made : FilePath → FileEntry → WolfDiskFs → Outcome FileAttr × WolfDiskFs
made path entry fs = (done (entry_to_attr entry fs.next_inode), link_in path entry fs)

unfoldable pub mkdir_at :
    Outcome (Unit {0}) → ℕ → Request → ℕ → WolfDiskFs → FilePath → Outcome FileAttr × WolfDiskFs
mkdir_at answer now req mode fs path =
    let entry = new_entry true mode now req in
    if not (is_leader fs)
    then forwarded answer fs (made path entry fs)
    else if contains path fs.file_index
    then (error eexist, fs)
    else (
      done (entry_to_attr entry fs.next_inode),
      broadcast_index_update (IndexOperation.mkdir path mode) (link_in path entry fs),
    )

unfoldable pub mkdir :
    Outcome (Unit {0}) → ℕ → Request → ℕ → String → ℕ → WolfDiskFs → Outcome FileAttr × WolfDiskFs
mkdir answer now req parent name mode fs = at parent name fs (mkdir_at answer now req mode fs)

-- The attributes of a new file, and a handle that is open on it
abbrev pub opened_on : FileEntry → ℕ → WolfDiskFs → (FileAttr × ℕ) × WolfDiskFs
opened_on entry inode fs =
    let (fh, fs') = open_handle inode fs in ((entry_to_attr entry inode, fh), fs')

abbrev pub reply_created :
    {A : Type 0} → A × WolfDiskFs → (WolfDiskFs → WolfDiskFs) → Outcome A × WolfDiskFs
reply_created (a, fs) onward = (done a, onward fs)

unfoldable pub create_at :
    Outcome (Unit {0})
    → ℕ
    → Request
    → ℕ
    → WolfDiskFs
    → FilePath
    → Outcome (FileAttr × ℕ) × WolfDiskFs
create_at answer now req mode fs path =
    let entry = new_entry false mode now req in
    let opened = opened_on entry fs.next_inode (link_in path entry fs) in
    if not (is_leader fs)
    then forwarded answer fs (reply_created opened (λ s. s))
    else if contains path fs.file_index
    then (error eexist, fs)
    else reply_created opened (broadcast_index_update (upsert path 0 now mode []))

unfoldable pub create :
    Outcome (Unit {0})
    → ℕ
    → Request
    → ℕ
    → String
    → ℕ
    → WolfDiskFs
    → Outcome (FileAttr × ℕ) × WolfDiskFs
create answer now req parent name mode fs = at parent name fs (create_at answer now req mode fs)

abbrev pub is_open_to : ℕ → Option FilePath → Bool
is_open_to ino none = ino == root_inode
is_open_to ino (some path) = true

unfoldable pub open_file : ℕ → WolfDiskFs → Outcome ℕ × WolfDiskFs
open_file ino fs =
    if is_open_to ino (get_path ino fs.inode_table)
    then (done (open_handle ino fs).0, (open_handle ino fs).1)
    else (error enoent, fs)

abbrev pub link_entry : ℕ → String → ℕ → Request → FileEntry
link_entry length_of_target target now req = record (new_entry false 511 now req) {
  size = length_of_target;
  symlink_target = some target;
}

abbrev pub link_attr : FileEntry → ℕ → FileAttr
link_attr entry inode = record (entry_to_attr entry inode) {
  blocks = 0;
  kind = symlink_file;
  nlink = 1;
}

-- The length of the target in bytes is an argument.
unfoldable pub symlink_at :
    Outcome (Unit {0})
    → ℕ
    → Request
    → ℕ
    → String
    → WolfDiskFs
    → FilePath
    → Outcome FileAttr × WolfDiskFs
symlink_at answer now req length_of_target target fs path =
    let entry = link_entry length_of_target target now req in
    let linked : Outcome FileAttr × WolfDiskFs =
      (done (link_attr entry fs.next_inode), link_in path entry fs) in
    if not (is_leader fs) then forwarded answer fs linked else linked

unfoldable pub symlink :
    Outcome (Unit {0})
    → ℕ
    → Request
    → ℕ
    → String
    → ℕ
    → String
    → WolfDiskFs
    → Outcome FileAttr × WolfDiskFs
symlink answer now req parent name length_of_target target fs =
    at parent name fs (symlink_at answer now req length_of_target target fs)

abbrev pub target_of : Option FileEntry → Outcome String
target_of none = error enoent
target_of (some entry) = elim entry.symlink_target [
  | none ↦ error einval
  | some target ↦ done target
]

unfoldable pub readlink : ℕ → WolfDiskFs → Outcome String
readlink ino fs = elim (get_path ino fs.inode_table) [
  | none ↦ error enoent
  | some path ↦ target_of (entry_of path fs.file_index)
]

abbrev pub copy_entry : FileEntry → ℕ → Request → FileEntry
copy_entry source now req = record source {
  is_dir = false;
  uid = req.uid;
  gid = req.gid;
  created = now;
  accessed = now;
  symlink_target = none;
}

unfoldable pub link_from :
    ℕ → Request → WolfDiskFs → Option FileEntry → FilePath → Outcome FileAttr × WolfDiskFs
link_from now req fs none path = (error enoent, fs)
link_from now req fs (some source) path =
    if source.is_dir then (error eperm, fs) else made path (copy_entry source now req) fs

abbrev pub link_known :
    ℕ → Request → ℕ → String → WolfDiskFs → Option FilePath → Outcome FileAttr × WolfDiskFs
link_known now req newparent newname fs none = (error enoent, fs)
link_known now req newparent newname fs (some source) =
    at newparent newname fs (link_from now req fs (entry_of source fs.file_index))

unfoldable pub link : ℕ → Request → ℕ → ℕ → String → WolfDiskFs → Outcome FileAttr × WolfDiskFs
link now req ino newparent newname fs =
    link_known now req newparent newname fs (get_path ino fs.inode_table)

-- The file type in a mode, and the one of a regular file
abbrev pub type_bits : ℕ → ℕ
type_bits mode = (mode / 4096) % 16

unfoldable pub mknod_at : ℕ → Request → ℕ → WolfDiskFs → FilePath → Outcome FileAttr × WolfDiskFs
mknod_at now req mode fs path =
    if contains path fs.file_index
    then (error eexist, fs)
    else if not (type_bits mode == 8) && not (type_bits mode == 0)
    then (error enotsup, fs)
    else made path (new_entry false (mode % 4096) now req) fs

unfoldable pub mknod : ℕ → Request → ℕ → String → ℕ → WolfDiskFs → Outcome FileAttr × WolfDiskFs
mknod now req parent name mode fs = at parent name fs (mknod_at now req mode fs)
