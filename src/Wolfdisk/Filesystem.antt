-- ===== src/Wolfdisk/Filesystem.antt =====
-- wolfdisk/src/fuse/filesystem.rs: the mounted file system. A call gives its reply and the new state.
-- Times are milliseconds, the clock's value is an argument, and a name has no slash. The queue of
-- the replication thread is the list of what was put into it.
pub mod Entries
pub mod Removal
pub mod Attributes
pub mod Buffers
pub mod Listing
pub mod Reads
pub mod Syncs
pub mod Clients
pub mod Sound
pub mod Valid
pub mod Written
pub mod Runs
pub mod Lookups
pub mod Losses
pub mod Segments
pub mod Drains
mod Tests
use wolf_scale.Base.{
  ℕ, suc, ◌+◌, ◌-◌, ◌^◌, ◌/◌, ◌%◌, String, Bool, true, false, Option, none, some, List, [], ◌∷◌,
  ◌++◌, ◌==◌, if◌then◌else◌, get, put, take_out, keep, not, any,
}
use wolf_scale.Wolfdisk.Paths.{FilePath, path_text}
use wolf_scale.Wolfdisk.Chunks.{ChunkRef, ChunkStore}
use wolf_scale.Wolfdisk.Chunks
use wolf_scale.Wolfdisk.Index.{FileEntry, FileIndex, add_entry}
use wolf_scale.Wolfdisk.Inodes.{InodeTable, root_inode, get_path, add}
use wolf_scale.Wolfdisk.Cluster.{ClusterManager, record_change}
use wolf_scale.Wolfdisk.Cluster

pub data Errno : Type 0 where
  enoent eexist eisdir enotdir enotempty eio eperm einval enotsup : Errno

pub data Outcome (A : Type 0) : Type 0 where
  done : A → Outcome A
  error : Errno → Outcome A

pub data IndexOperation : Type 0 where
  upsert :
      (path : FilePath) (size modified_ms permissions : ℕ) (chunks : List ChunkRef) → IndexOperation
  delete : FilePath → IndexOperation
  mkdir : (path : FilePath) (permissions : ℕ) → IndexOperation
  rename : (from_path to_path : FilePath) → IndexOperation

-- A `FileSync` comes without the content of chunks or with it.
pub data Message : Type 0 where
  index_update : (version : ℕ) → IndexOperation → Message
  file_sync : FilePath → FileEntry → Message
  file_sync_data : FilePath → FileEntry → (chunk_data : List (ℕ × List ℕ)) → Message
  store_chunk : (hash : ℕ) (content : List ℕ) → Message

pub record WriteBuffer : Type 0 where
  pub content : List ℕ
  pub base_offset : ℕ

pub record ClientWriteEntry : Type 0 where
  pub path : FilePath
  pub segments : List (ℕ × List ℕ)
  pub size : ℕ
  pub pending_truncate : Option ℕ

pub record WolfDiskFs : Type 0 where
  pub chunk_store : ChunkStore
  pub file_index : FileIndex
  pub inode_table : InodeTable
  pub next_inode : ℕ
  pub open_files : List (ℕ × ℕ)
  pub next_fh : ℕ
  pub cluster : Option ClusterManager
  pub write_buffers : List (ℕ × WriteBuffer)
  pub dirty_inodes : List ℕ
  pub index_dirty : Bool
  pub sent : List Message
  pub client_write_cache : List (ℕ × ClientWriteEntry)

-- `req.uid()` and `req.gid()`
pub record Request : Type 0 where
  pub uid : ℕ
  pub gid : ℕ

pub data FileType : Type 0 where
  directory regular_file symlink_file : FileType

pub record FileAttr : Type 0 where
  pub ino : ℕ
  pub size : ℕ
  pub blocks : ℕ
  pub atime : ℕ
  pub mtime : ℕ
  pub ctime : ℕ
  pub crtime : ℕ
  pub kind : FileType
  pub perm : ℕ
  pub nlink : ℕ
  pub uid : ℕ
  pub gid : ℕ

unfoldable pub entry_to_attr : FileEntry → ℕ → FileAttr
entry_to_attr e inode = record {
  ino = inode;
  size = e.size;
  blocks = (e.size + 511) / 512;
  atime = e.accessed;
  mtime = e.modified;
  ctime = e.modified;
  crtime = e.created;
  kind = if e.is_dir then directory else regular_file;
  perm = e.permissions % 2 ^ 16;
  nlink = if e.is_dir then 2 else 1;
  uid = e.uid;
  gid = e.gid;
}

abbrev pub leads : Option ClusterManager → Bool
leads none = true
leads (some m) = Cluster.is_leader m

unfoldable pub is_leader : WolfDiskFs → Bool
is_leader fs = leads fs.cluster

unfoldable pub allocate_inode : WolfDiskFs → ℕ × WolfDiskFs
allocate_inode fs = (fs.next_inode, record fs { next_inode = fs.next_inode + 1 })

-- `allocate_fh`, and the handle put among the open files
unfoldable pub open_handle : ℕ → WolfDiskFs → ℕ × WolfDiskFs
open_handle inode fs = (
  fs.next_fh,
  record fs { next_fh = fs.next_fh + 1; open_files = put fs.next_fh inode fs.open_files },
)

abbrev pub op_path : IndexOperation → FilePath
op_path (upsert path _ _ _ _) = path
op_path (delete path) = path
op_path (mkdir path _) = path
op_path (rename _ to_path) = to_path

abbrev pub is_delete : IndexOperation → Bool
is_delete (delete _) = true
is_delete _ = false

abbrev pub broadcast_with : IndexOperation → WolfDiskFs → Option ClusterManager → WolfDiskFs
broadcast_with op fs none = fs
broadcast_with op fs (some m) =
    let (version, m') = record_change (path_text (op_path op)) (is_delete op) m in
    record fs { cluster = some m'; sent = fs.sent ++ (index_update version op ∷ []) }

unfoldable pub broadcast_index_update : IndexOperation → WolfDiskFs → WolfDiskFs
broadcast_index_update op fs = if is_leader fs then broadcast_with op fs fs.cluster else fs

-- The queue is there if the node is in a cluster.
abbrev pub queue_message : Message → WolfDiskFs → Option ClusterManager → WolfDiskFs
queue_message m fs none = fs
queue_message m fs (some _) = record fs { sent = fs.sent ++ (m ∷ []) }

unfoldable pub broadcast_file_sync_final : FilePath → FileEntry → WolfDiskFs → WolfDiskFs
broadcast_file_sync_final path entry fs =
    if is_leader fs then queue_message (file_sync path entry) fs fs.cluster else fs

unfoldable pub parent_path : ℕ → WolfDiskFs → Option FilePath
parent_path ino fs = if ino == root_inode then some [] else get_path ino fs.inode_table

-- An entry under a new inode, in the index and the inode table
unfoldable pub link_in : FilePath → FileEntry → WolfDiskFs → WolfDiskFs
link_in path entry fs = record fs {
  next_inode = fs.next_inode + 1;
  inode_table = add fs.next_inode path fs.inode_table;
  file_index = add_entry path entry fs.file_index;
}

unfoldable pub delete_chunks : List ChunkRef → ChunkStore → ChunkStore
delete_chunks [] s = s
delete_chunks (k ∷ ks) s = delete_chunks ks (Chunks.delete k.hash s)

-- `with_cluster` on an index and what main.rs makes of it
unfoldable pub start : FileIndex → ℕ → Option ClusterManager → WolfDiskFs
start index chunk_size cluster =
    let (table, max_inode) =
      wolf_scale.Wolfdisk.Inodes.from_index (wolf_scale.Wolfdisk.Index.paths index) in
    record {
      chunk_store = Chunks.new chunk_size;
      file_index = index;
      inode_table = table;
      next_inode = max_inode + 1;
      open_files = [];
      next_fh = 1;
      cluster = cluster;
      write_buffers = [];
      dirty_inodes = [];
      index_dirty = false;
      sent = [];
      client_write_cache = [];
    }
