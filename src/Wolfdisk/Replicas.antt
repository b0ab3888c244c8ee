-- ===== src/Wolfdisk/Replicas.antt =====
-- The handler of wolfdisk/src/main.rs for what a leader sends to its followers: chunks, operations on
-- the index and the metadata of files. A client keeps no chunks. The messages come one at a time.
pub mod Tables
pub mod Mirror
pub mod Followers
mod Tests
use wolf_scale.Base.{
  ℕ, suc, ◌+◌, ◌-◌, ◌^◌, Bool, true, false, Option, none, some, List, [], ◌∷◌, ltb, ◌==◌, not,
  if◌then◌else◌,
}
use wolf_scale.Wolfdisk.Paths.{FilePath}
use wolf_scale.Wolfdisk.Chunks.{ChunkRef, ChunkStore}
use wolf_scale.Wolfdisk.Chunks
use wolf_scale.Wolfdisk.Index.{
  FileEntry, FileIndex, entry_of, add_entry, remove_entry, change_entry, is_some,
}
use wolf_scale.Wolfdisk.Inodes.{get_inode, remove_path, add}
use wolf_scale.Wolfdisk.Filesystem.{
  WolfDiskFs, IndexOperation, upsert, delete, mkdir, rename, Message, index_update, file_sync,
  file_sync_data, store_chunk, delete_chunks,
}
use wolf_scale.Wolfdisk.Filesystem.Removal.{chunks_of}

-- The entry that an operation makes; the owner is not sent.
abbrev pub received : Bool → ℕ → ℕ → ℕ → List ChunkRef → ℕ → FileEntry
received is_dir size modified permissions chunks now = record {
  size = size;
  is_dir = is_dir;
  permissions = permissions;
  uid = 0;
  gid = 0;
  created = now;
  modified = modified;
  accessed = now;
  chunks = chunks;
  symlink_target = none;
}

abbrev pub with_inode : FilePath → WolfDiskFs → Option ℕ → WolfDiskFs
with_inode path fs (some i) = fs
with_inode path fs none = record fs {
  next_inode = fs.next_inode + 1;
  inode_table = add fs.next_inode path fs.inode_table;
}

-- An inode for a path that has none
unfoldable pub ensure_inode : FilePath → WolfDiskFs → WolfDiskFs
ensure_inode path fs = with_inode path fs (get_inode path fs.inode_table)

unfoldable pub put_entry : FilePath → FileEntry → WolfDiskFs → WolfDiskFs
put_entry path entry fs = record fs { file_index = add_entry path entry fs.file_index }

unfoldable pub drop_path : FilePath → WolfDiskFs → WolfDiskFs
drop_path path fs = record fs {
  file_index = remove_entry path fs.file_index;
  inode_table = (remove_path path fs.inode_table).1;
}

abbrev pub clean_up : List ChunkRef → WolfDiskFs → WolfDiskFs
clean_up chunks fs = record fs { chunk_store = delete_chunks chunks fs.chunk_store }

-- The chunks of the file that was at a path
abbrev pub replaced : Bool → Option FileEntry → List ChunkRef
replaced is_client none = []
replaced is_client (some old) = if old.is_dir then [] else if is_client then [] else old.chunks

abbrev pub drop_old : FilePath → WolfDiskFs → Option FileEntry → WolfDiskFs
drop_old path fs none = fs
drop_old path fs (some old) = drop_path path fs

abbrev pub carry : FilePath → FilePath → WolfDiskFs → Option FileEntry → WolfDiskFs
carry from to fs none = fs
carry from to fs (some entry) = record fs {
  file_index = add_entry to entry (remove_entry from fs.file_index);
  next_inode = fs.next_inode + 1;
  inode_table = add fs.next_inode to ((remove_path from fs.inode_table).1);
}

unfoldable pub move_path : FilePath → FilePath → WolfDiskFs → WolfDiskFs
move_path from to fs =
    let cleared = drop_old to fs (entry_of to fs.file_index) in
    carry from to cleared (entry_of from cleared.file_index)

unfoldable pub handle_index_update : Bool → ℕ → IndexOperation → WolfDiskFs → WolfDiskFs
handle_index_update is_client now (delete path) fs =
    clean_up (if is_client then [] else chunks_of (entry_of path fs.file_index)) (drop_path path fs)
handle_index_update is_client now (upsert path size modified permissions chunks) fs =
    clean_up (replaced is_client (entry_of path fs.file_index))
      (ensure_inode path (put_entry path (received false size modified permissions chunks now) fs))
handle_index_update is_client now (mkdir path permissions) fs =
    ensure_inode path (put_entry path (received true 0 now permissions [] now) fs)
handle_index_update is_client now (rename from to) fs =
    clean_up (replaced is_client (entry_of to fs.file_index)) (move_path from to fs)

-- The size that says that the file is deleted
abbrev pub deleted_size : ℕ
deleted_size = 2 ^ 64 - 1

-- An entry as it comes in a `FileSync`
abbrev pub synced : ℕ → FileEntry → FileEntry
synced now sync = record sync { created = sync.modified; accessed = now; symlink_target = none }

-- A file that is known only grows.
abbrev pub refresh : FileEntry → FileEntry → FileEntry
refresh sync entry = record entry {
  size = if ltb entry.size sync.size then sync.size else entry.size;
  permissions = sync.permissions;
  uid = sync.uid;
  gid = sync.gid;
  modified = sync.modified;
}

abbrev pub is_empty : List ChunkRef → Bool
is_empty [] = true
is_empty (k ∷ ks) = false

abbrev pub update_or_add : ℕ → FilePath → FileEntry → Option FileEntry → WolfDiskFs → WolfDiskFs
update_or_add now path sync none fs = put_entry path (synced now sync) fs
update_or_add now path sync (some entry) fs = put_entry path (refresh sync entry) fs

abbrev pub handle_deletion : FilePath → WolfDiskFs → Option FileEntry → WolfDiskFs
handle_deletion path fs none = fs
handle_deletion path fs (some entry) = clean_up entry.chunks (drop_path path fs)

-- The content that comes with a `FileSync`; a client keeps none.
unfoldable pub store_all : Bool → List (ℕ × List ℕ) → WolfDiskFs → WolfDiskFs
store_all is_client [] fs = fs
store_all is_client ((hash, content) ∷ more) fs = store_all is_client more (
    if is_client
    then fs
    else record fs { chunk_store = Chunks.store_with_hash hash content fs.chunk_store })

-- A file that is known, at a further batch of its chunks
abbrev pub regrown : FileEntry → FileEntry → FileEntry
regrown sync entry = record entry {
  size = if ltb entry.size sync.size then sync.size else entry.size;
  modified = sync.modified;
}

abbrev pub continue_batch : FilePath → FileEntry → Option FileEntry → WolfDiskFs → WolfDiskFs
continue_batch path sync none fs = fs
continue_batch path sync (some entry) fs = put_entry path (regrown sync entry) fs

-- A `FileSync` without references to chunks
abbrev pub without_chunks : ℕ → FilePath → FileEntry → List (ℕ × List ℕ) → WolfDiskFs → WolfDiskFs
without_chunks now path sync [] fs = update_or_add now path sync (entry_of path fs.file_index) fs
without_chunks now path sync (_ ∷ _) fs = continue_batch path sync (entry_of path fs.file_index) fs

unfoldable pub handle_file_sync :
    Bool → ℕ → FilePath → FileEntry → List (ℕ × List ℕ) → WolfDiskFs → WolfDiskFs
handle_file_sync is_client now path sync chunk_data fs =
    let stored = store_all is_client chunk_data fs in
    if sync.size == deleted_size
    then handle_deletion path fs (entry_of path fs.file_index)
    else ensure_inode path (
        if is_empty sync.chunks
        then without_chunks now path sync chunk_data stored
        else put_entry path (synced now sync) stored)

unfoldable pub handle : Bool → ℕ → Message → WolfDiskFs → WolfDiskFs
handle is_client now (store_chunk hash content) fs =
    if is_client
    then fs
    else record fs { chunk_store = Chunks.store_with_hash hash content fs.chunk_store }
handle is_client now (index_update version op) fs = handle_index_update is_client now op fs
handle is_client now (file_sync path entry) fs = handle_file_sync is_client now path entry [] fs
handle is_client now (file_sync_data path entry chunk_data) fs =
    handle_file_sync is_client now path entry chunk_data fs

-- The messages of a queue, in order
unfoldable pub deliver : Bool → ℕ → List Message → WolfDiskFs → WolfDiskFs
deliver is_client now [] fs = fs
deliver is_client now (m ∷ ms) fs = deliver is_client now ms (handle is_client now m fs)
