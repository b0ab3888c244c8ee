-- ===== src/Wolfdisk/Filesystem/Reads.antt =====
-- `read` of wolfdisk/src/fuse/filesystem.rs on any node. What the leader answers to a read that is
-- forwarded is an argument, and so are the content it sends for a chunk, if it sends one, and whether
-- the node is a client.
use wolf_scale.Base.{
  ℕ, ◌+◌, Bool, false, not, ◌&&◌, ◌||◌, Option, none, some, List, [], ◌∷◌, leb, if◌then◌else◌, u64,
}
use wolf_scale.Wolfdisk.Paths.{FilePath}
use wolf_scale.Wolfdisk.Chunks.{ChunkRef, ChunkStore, chunk_end, exists, store_with_hash}
use wolf_scale.Wolfdisk.Index.{FileEntry, entry_of}
use wolf_scale.Wolfdisk.Inodes.{get_path}
use wolf_scale.Wolfdisk.Cluster.{ClusterManager}
use wolf_scale.Wolfdisk.Cluster
use wolf_scale.Wolfdisk.Filesystem.{WolfDiskFs, Outcome, error, enoent, is_leader}
use wolf_scale.Wolfdisk.Filesystem.Buffers.{read_entry}

abbrev pub is_unsynced : Option ClusterManager → Bool
is_unsynced none = false
is_unsynced (some m) = not (Cluster.is_leader m) && not m.initial_sync_complete

abbrev pub store_fetched : ℕ → Option (List ℕ) → ChunkStore → ChunkStore
store_fetched hash none s = s
store_fetched hash (some content) s = store_with_hash hash content s

-- The chunks that the range meets and that are missing are fetched.
unfoldable pub fetch_missing :
    (ℕ → Option (List ℕ)) → ℕ → ℕ → List ChunkRef → ChunkStore → ChunkStore
fetch_missing sent offset end_offset [] s = s
fetch_missing sent offset end_offset (k ∷ ks) s =
    let away = leb (chunk_end k) offset || leb end_offset k.offset in
    fetch_missing sent offset end_offset ks
      (if away then s else if exists k.hash s then s else store_fetched k.hash (sent k.hash) s)

abbrev pub fetched_for : (ℕ → Option (List ℕ)) → ℕ → ℕ → WolfDiskFs → Option FileEntry → WolfDiskFs
fetched_for sent offset size fs none = fs
fetched_for sent offset size fs (some e) =
    if not (is_leader fs)
    then record fs {
      chunk_store = fetch_missing sent offset (u64 (offset + size)) e.chunks fs.chunk_store;
    }
    else fs

abbrev pub read_at_path :
    (List ℕ → ℕ)
    → Bool
    → Outcome (List ℕ)
    → (ℕ → Option (List ℕ))
    → ℕ
    → ℕ
    → ℕ
    → WolfDiskFs
    → Option FilePath
    → Option (Outcome (List ℕ)) × WolfDiskFs
read_at_path sha256 is_client answer sent ino offset size fs none = (some (error enoent), fs)
read_at_path sha256 is_client answer sent ino offset size fs (some path) =
    let o = entry_of path fs.file_index in
    if is_client || is_unsynced fs.cluster
    then (some answer, fs)
    else read_entry sha256 ino offset size (fetched_for sent offset size fs o) o

unfoldable pub read_any :
    (List ℕ → ℕ)
    → Bool
    → Outcome (List ℕ)
    → (ℕ → Option (List ℕ))
    → ℕ
    → ℕ
    → ℕ
    → WolfDiskFs
    → Option (Outcome (List ℕ)) × WolfDiskFs
read_any sha256 is_client answer sent ino offset size fs =
    read_at_path sha256 is_client answer sent ino offset size fs (get_path ino fs.inode_table)
