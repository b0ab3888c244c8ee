-- ===== src/Wolfdisk/Requests.antt =====
-- The handler of wolfdisk/src/main.rs for what other nodes ask of the leader. It shares the index, the
-- inode table, the chunk store and the cluster with the mounted file system; the queues of what its
-- threads broadcast are lists. SHA-256 is a parameter, and the chunk store does not fail.
pub mod Syncs
pub mod Valid
pub mod Writes
pub mod Panics
mod Tests
use wolf_scale.Base.{
  ℕ, ◌+◌, ◌<◌, String, Bool, true, false, Option, none, some, List, [], ◌∷◌, ◌++◌, ltb, ◌&&◌, not,
  if◌then◌else◌, length, drop, u64,
}
use wolf_scale.Wolfdisk.Paths.{FilePath, path_text, is_child}
use wolf_scale.Wolfdisk.Chunks.{
  ChunkRef, ChunkStore, ReadResult, bytes, chunk_not_found, panics, fetch, read, write,
}
use wolf_scale.Wolfdisk.Index.{FileEntry, entry_of, add_entry, remove_entry, contains, has_children}
use wolf_scale.Wolfdisk.Inodes.{InodeTable, get_inode, remove_path}
use wolf_scale.Wolfdisk.Cluster.{ClusterManager, record_change}
use wolf_scale.Wolfdisk.Filesystem.{WolfDiskFs, delete_chunks, link_in}
use wolf_scale.Wolfdisk.Filesystem
use wolf_scale.Wolfdisk.Filesystem.Clients.{grow_entry}
use wolf_scale.Wolfdisk.Filesystem.Entries.{new_entry, link_entry}
use wolf_scale.Wolfdisk.Filesystem.Removal.{delete_signal, drop_file, drop_dir, move_inode}
use wolf_scale.Wolfdisk.Filesystem.Attributes.{Change, changed, truncated, cleared}

-- The length of a symbolic link's target in bytes comes with it.
pub data Request : Type 0 where
  write_request : (path : FilePath) (offset : ℕ) (content : List ℕ) → Request
  create_file : (path : FilePath) (mode uid gid : ℕ) → Request
  delete_file : FilePath → Request
  create_dir : (path : FilePath) (mode uid gid : ℕ) → Request
  delete_dir : FilePath → Request
  rename_file : (from_path to_path : FilePath) → Request
  create_symlink : (link_path : FilePath) (target : String) (bytes_of_target : ℕ) → Request
  set_attr : FilePath → Change → Request
  read_request : (path : FilePath) (offset size : ℕ) → Request
  read_dir : FilePath → Request
  get_attr : FilePath → Request

-- An answer with what it carries; a panic ends the thread without one.
pub data Answer : Type 0 where
  success : Answer
  contents : List ℕ → Answer
  listing : List (String × Bool) → Answer
  attributes : Option FileEntry → Answer
  failure : String → Answer
  panicked : Answer

pub record Leader : Type 0 where
  pub fs : WolfDiskFs
  pub broadcast_queue : List (FilePath × FileEntry)
  pub metadata_update_queue : List (FilePath × FileEntry)
  pub chunk_stream_queue : List (ℕ × List ℕ)

abbrev pub recorded : FilePath → Bool → Option ClusterManager → Option ClusterManager
recorded path is_deleted none = none
recorded path is_deleted (some m) = some ((record_change (path_text path) is_deleted m).1)

-- `increment_index_version` and `record_deletion`
unfoldable pub note_change : FilePath → Bool → WolfDiskFs → WolfDiskFs
note_change path is_deleted fs = record fs { cluster = recorded path is_deleted fs.cluster }

abbrev pub announce : FilePath → FileEntry → WolfDiskFs → Leader → Leader
announce path entry fs l = record l {
  fs = fs;
  broadcast_queue = l.broadcast_queue ++ ((path, entry) ∷ []);
}

-- A deletion's marker, with the kind of the entry
abbrev pub delete_marker : Bool → ℕ → FileEntry
delete_marker is_dir now = record (delete_signal now) { is_dir = is_dir }

abbrev pub owner : ℕ → ℕ → Filesystem.Request
owner uid gid = record { uid = uid; gid = gid }

abbrev pub queued : ℕ → Option (List ℕ) → List (ℕ × List ℕ) → List (ℕ × List ℕ)
queued hash none queue = queue
queued hash (some content) queue = queue ++ ((hash, content) ∷ [])

-- The chunks that can be fetched are queued for the followers.
unfoldable pub stream_chunks :
    List ChunkRef → ChunkStore → List (ℕ × List ℕ) → ChunkStore × List (ℕ × List ℕ)
stream_chunks [] s queue = (s, queue)
stream_chunks (k ∷ ks) s queue =
    let (found, s') = fetch k.hash s in stream_chunks ks s' (queued k.hash found queue)

unfoldable pub handle_create : FilePath → FileEntry → Leader → Answer × Leader
handle_create path entry l =
    if contains path l.fs.file_index
    then (failure "File already exists", l)
    else (success, announce path entry (note_change path false (link_in path entry l.fs)) l)

unfoldable pub handle_create_dir : String → FilePath → FileEntry → Leader → Answer × Leader
handle_create_dir there path entry l =
    if contains path l.fs.file_index
    then (failure there, l)
    else (success, announce path entry (link_in path entry l.fs) l)

-- The text of an error comes after what is said of it here.
abbrev pub answer_read : ReadResult → Answer
answer_read (bytes content) = contents content
answer_read (chunk_not_found hash) = failure "Read error"
answer_read panics = panicked

unfoldable pub read_found : ℕ → ℕ → Leader → Option FileEntry → Answer × Leader
read_found offset size l none = (failure "File not found", l)
read_found offset size l (some entry) =
    let (r, s) = read entry.chunks offset size l.fs.chunk_store in
    (answer_read r, record l { fs = record l.fs { chunk_store = s } })

-- `file_name` and `is_dir` of the paths in a directory
abbrev pub named : FilePath → FileEntry → List (String × Bool) → List (String × Bool)
named [] entry rest = rest
named (n ∷ []) entry rest = (n, entry.is_dir) ∷ rest
named (n ∷ m ∷ p) entry rest = named (m ∷ p) entry rest

unfoldable pub entries_in : FilePath → List (FilePath × FileEntry) → List (String × Bool)
entries_in dir [] = []
entries_in dir ((path, entry) ∷ rest) =
    if is_child dir path then named path entry (entries_in dir rest) else entries_in dir rest

unfoldable pub set_attr_found : FilePath → Change → Leader → Option FileEntry → Answer × Leader
set_attr_found path c l none = (failure "File not found", l)
set_attr_found path c l (some entry) =
    let entry' = changed c (truncated c.size entry) in
    (
      success,
      announce path entry'
          (record l.fs {
            file_index = add_entry path entry' l.fs.file_index;
            chunk_store = cleared c.size entry l.fs.chunk_store;
          })
          l,
    )

module _ (now : ℕ) where
  unfoldable pub delete_found : FilePath → Leader → Option FileEntry → Answer × Leader
  delete_found path l none = (failure "File not found", l)
  delete_found path l (some entry) = (
    success,
    announce path (delete_marker false now) (note_change path true (drop_file path l.fs)) l,
  )

  unfoldable pub delete_dir_found : FilePath → Leader → Option FileEntry → Answer × Leader
  delete_dir_found path l none = (failure "Directory not found", l)
  delete_dir_found path l (some entry) =
      if not entry.is_dir
      then (failure "Not a directory", l)
      else if has_children path l.fs.file_index
      then (failure "Directory not empty", l)
      else (
        success,
        announce path (delete_marker true now) (note_change path true (drop_dir path l.fs)) l,
      )

  -- The entry to move is a copy, from before the target is taken away.
  abbrev pub rename_onto : FilePath → FilePath → FileEntry → WolfDiskFs → Leader → Answer × Leader
  rename_onto from to entry cleared l =
      let moved = record cleared {
        file_index = add_entry to entry (remove_entry from cleared.file_index);
        inode_table = move_inode from to cleared.inode_table;
      } in
      (success, announce to entry moved (announce from (delete_marker entry.is_dir now) moved l))

  unfoldable pub rename_target :
      FilePath → FilePath → FileEntry → Leader → Option FileEntry → Answer × Leader
  rename_target from to entry l none = rename_onto from to entry l.fs l
  rename_target from to entry l (some target) =
      if target.is_dir && has_children to l.fs.file_index
      then (failure "Destination directory not empty", l)
      else rename_onto from to entry (drop_file to l.fs) l

  unfoldable pub rename_source : FilePath → FilePath → Leader → Option FileEntry → Answer × Leader
  rename_source from to l none = (failure "Source not found", l)
  rename_source from to l (some entry) = rename_target from to entry l (entry_of to l.fs.file_index)

module _ (sha256 : List ℕ → ℕ) (now : ℕ) where
  -- The new chunks are taken to be those behind as many as there were.
  abbrev pub stream_written : FilePath → ℕ → FileEntry → WolfDiskFs → Leader → Answer × Leader
  stream_written path chunks_before entry fs l =
      let (s, queue) =
        stream_chunks (drop chunks_before entry.chunks) fs.chunk_store l.chunk_stream_queue in
      (
        success,
        record l {
          fs = note_change path false (record fs { chunk_store = s });
          metadata_update_queue = l.metadata_update_queue ++ ((path, entry) ∷ []);
          chunk_stream_queue = queue;
        },
      )

  unfoldable pub write_found : FilePath → ℕ → List ℕ → Leader → Option FileEntry → Answer × Leader
  write_found path offset content l none = (failure "File not found", l)
  write_found path offset content l (some entry) =
      let (written, (chunks, s)) = write sha256 entry.chunks offset content l.fs.chunk_store in
      let entry' = grow_entry now (u64 (offset + written)) (record entry { chunks = chunks }) in
      let fs' = record l.fs {
        chunk_store = s;
        file_index = add_entry path entry' l.fs.file_index;
      } in
      if ltb (length chunks) (length entry.chunks)
      then (panicked, record l { fs = fs' })
      else stream_written path (length entry.chunks) entry' fs' l

  unfoldable pub serve : Request → Leader → Answer × Leader
  serve (write_request path offset content) l =
      write_found path offset content l (entry_of path l.fs.file_index)
  serve (create_file path mode uid gid) l =
      handle_create path (new_entry false mode now (owner uid gid)) l
  serve (delete_file path) l = delete_found now path l (entry_of path l.fs.file_index)
  serve (create_dir path mode uid gid) l =
      handle_create_dir "Directory already exists" path (new_entry true mode now (owner uid gid)) l
  serve (delete_dir path) l = delete_dir_found now path l (entry_of path l.fs.file_index)
  serve (rename_file from to) l = rename_source now from to l (entry_of from l.fs.file_index)
  serve (create_symlink path target n) l =
      handle_create_dir "Path already exists" path (link_entry n target now (owner 0 0)) l
  serve (set_attr path c) l = set_attr_found path c l (entry_of path l.fs.file_index)
  serve (read_request path offset size) l = read_found offset size l (entry_of path l.fs.file_index)
  serve (read_dir dir) l = (listing (entries_in dir l.fs.file_index.entries), l)
  serve (get_attr path) l = (attributes (entry_of path l.fs.file_index), l)

  unfoldable pub serve_all : List Request → Leader → Leader
  serve_all [] l = l
  serve_all (r ∷ rs) l = serve_all rs ((serve r l).1)
