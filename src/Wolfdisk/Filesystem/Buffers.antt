-- ===== src/Wolfdisk/Filesystem/Buffers.antt =====
-- The leader's `write`, `flush_write_buffer`, `replicate_dirty`, `release` and `read`
-- of wolfdisk/src/fuse/filesystem.rs. SHA-256 is a parameter, the store does not fail, its chunk size is
-- that of the configuration, and the queue has room.
use wolf_scale.Base.{
  ℕ, zero, suc, ◌+◌, ◌-◌, min, max, Bool, true, false, Option, none, some, List, [], ◌∷◌, ◌++◌, ltb,
  leb, ◌==◌, not, ◌&&◌, keep, any, replicate, if◌then◌else◌, get, put, take_out, length, take, drop,
  u64, u32,
}
use wolf_scale.Wolfdisk.Paths.{FilePath}
use wolf_scale.Wolfdisk.Chunks.{
  ChunkRef, ChunkStore, ReadResult, bytes, chunk_not_found, panics, store, store_pieces, read,
}
use wolf_scale.Wolfdisk.Index.{FileEntry, entry_of, add_entry}
use wolf_scale.Wolfdisk.Inodes.{get_path}
use wolf_scale.Wolfdisk.Cluster.{ClusterManager}
use wolf_scale.Wolfdisk.Filesystem.{
  WolfDiskFs, WriteBuffer, Message, store_chunk, Outcome, done, error, enoent, eio, is_leader,
  broadcast_file_sync_final,
}
use wolf_scale.Wolfdisk.Filesystem.Clients.{grow_entry}

-- The entry of a file, if it is there, the store, and the chunks to stream to the followers
pub record Target : Type 0 where
  pub entry : Option FileEntry
  pub chunk_store : ChunkStore
  pub flushed : List Message

abbrev pub push_refs : ℕ → ℕ → List ChunkRef → FileEntry → FileEntry
push_refs now new_end refs e = grow_entry now new_end (record e { chunks = e.chunks ++ refs })

abbrev pub with_refs : ℕ → ℕ → List ChunkRef → Option FileEntry → Option FileEntry
with_refs now new_end refs none = none
with_refs now new_end refs (some e) = some (push_refs now new_end refs e)

module _ (sha256 : List ℕ → ℕ) where
  abbrev pub messages_of : ℕ → ℕ → List ℕ → List Message
  messages_of zero chunk_size content = []
  messages_of (suc fuel) chunk_size [] = []
  messages_of (suc fuel) chunk_size (b ∷ bs) =
      let n = min (length (b ∷ bs)) chunk_size in
      store_chunk (sha256 (take n (b ∷ bs))) (take n (b ∷ bs))
      ∷ messages_of fuel chunk_size (drop n (b ∷ bs))

  -- A whole buffer into chunks
  abbrev pub flush_into : ℕ → List ℕ → ℕ → Target → Option FileEntry → Target
  flush_into now content offset t none = t
  flush_into now content offset t (some e) =
      let (refs, (left, s)) = store_pieces sha256 (length content) content offset t.chunk_store in
      record {
        entry = some (push_refs now (u64 (offset + length content)) refs e);
        chunk_store = s;
        flushed = t.flushed ++ messages_of (length content) t.chunk_store.chunk_size content;
      }

  unfoldable pub flush_content : ℕ → List ℕ → ℕ → Target → Target
  flush_content now content offset t = flush_into now content offset t t.entry

  -- One full chunk, from the front of the buffer
  unfoldable pub flush_chunk : ℕ → List ℕ → ℕ → Target → Target
  flush_chunk now piece offset t =
      let (hash, s) = store sha256 piece t.chunk_store in
      let n = t.chunk_store.chunk_size in
      record {
        entry =
            with_refs now (u64 (offset + n))
              (record { hash = hash; offset = offset; size = u32 n } ∷ []) t.entry;
        chunk_store = s;
        flushed = t.flushed ++ (store_chunk hash piece ∷ []);
      }

  -- The loop of `write`. Each round takes a byte at least, so the bytes are rounds enough.
  unfoldable pub flush_full : ℕ → ℕ → WriteBuffer → Target → WriteBuffer × Target
  flush_full now zero b t = (b, t)
  flush_full now (suc fuel) b t =
      let n = t.chunk_store.chunk_size in
      let onward =
        flush_full now fuel
          (record { content = drop n b.content; base_offset = u64 (b.base_offset + n) })
          (flush_chunk now (take n b.content) b.base_offset t) in
      if leb n (length b.content) then onward else (b, t)

  abbrev pub is_empty : List ℕ → Bool
  is_empty [] = true
  is_empty (b ∷ bs) = false

  abbrev pub add_to_buffer : ℕ → ℕ → List ℕ → WriteBuffer → Target → WriteBuffer × Target
  add_to_buffer now offset content b t =
      if offset == u64 (b.base_offset + length b.content)
      then (record b { content = b.content ++ content }, t)
      else (
        record { content = content; base_offset = offset },
        if is_empty b.content then t else flush_content now b.content b.base_offset t,
      )

  abbrev pub then_flush : ℕ → WriteBuffer × Target → WriteBuffer × Target
  then_flush now (b, t) = flush_full now (length b.content) b t

  unfoldable pub buffer_write : ℕ → ℕ → List ℕ → WriteBuffer → Target → WriteBuffer × Target
  buffer_write now offset content b t = then_flush now (add_to_buffer now offset content b t)

  abbrev pub stream_with : List Message → WolfDiskFs → Option ClusterManager → WolfDiskFs
  stream_with ms fs none = fs
  stream_with ms fs (some _) = record fs { sent = fs.sent ++ ms }

  -- `stream_chunk_to_followers` for each chunk
  unfoldable pub stream : List Message → WolfDiskFs → WolfDiskFs
  stream ms fs = if is_leader fs then stream_with ms fs fs.cluster else fs

  abbrev pub set_entry : FilePath → Option FileEntry → WolfDiskFs → WolfDiskFs
  set_entry path none fs = fs
  set_entry path (some e) fs = record fs { file_index = add_entry path e fs.file_index }

  abbrev pub grown : ℕ → ℕ → Option FileEntry → Option FileEntry
  grown now new_end none = none
  grown now new_end (some e) = some (grow_entry now new_end e)

  abbrev pub sync_if : List Message → FilePath → Option FileEntry → WolfDiskFs → WolfDiskFs
  sync_if [] path o fs = fs
  sync_if (m ∷ ms) path none fs = fs
  sync_if (m ∷ ms) path (some e) fs = broadcast_file_sync_final path e fs

  unfoldable pub mark_dirty : ℕ → WolfDiskFs → WolfDiskFs
  mark_dirty ino fs = record fs {
    dirty_inodes =
        if any (λ i. i == ino) fs.dirty_inodes then fs.dirty_inodes else ino ∷ fs.dirty_inodes;
    index_dirty = true;
  }

  abbrev pub buffer_of : ℕ → Option WriteBuffer → WriteBuffer
  buffer_of offset none = record { content = []; base_offset = offset }
  buffer_of offset (some b) = b

  abbrev pub target_of : FilePath → WolfDiskFs → Target
  target_of path fs = record {
    entry = entry_of path fs.file_index;
    chunk_store = fs.chunk_store;
    flushed = [];
  }

  abbrev pub write_path : ℕ → ℕ → ℕ → List ℕ → WolfDiskFs → Option FilePath → Outcome ℕ × WolfDiskFs
  write_path now ino offset content fs none = (error enoent, fs)
  write_path now ino offset content fs (some path) =
      let (b, t) =
        buffer_write now offset content (buffer_of offset (get ino fs.write_buffers))
          (target_of path fs) in
      let o = grown now (u64 (b.base_offset + length b.content)) t.entry in
      let stored = record fs {
        write_buffers = put ino b fs.write_buffers;
        chunk_store = t.chunk_store;
      } in
      (
        done (u32 (length content)),
        mark_dirty ino (sync_if t.flushed path o (set_entry path o (stream t.flushed stored))),
      )

  unfoldable pub write : ℕ → ℕ → ℕ → List ℕ → WolfDiskFs → Outcome ℕ × WolfDiskFs
  write now ino offset content fs =
      write_path now ino offset content fs (get_path ino fs.inode_table)

  abbrev pub flush_to : ℕ → WriteBuffer → WolfDiskFs → Option FilePath → WolfDiskFs
  flush_to now b fs none = fs
  flush_to now b fs (some path) =
      let t = flush_content now b.content b.base_offset (target_of path fs) in
      record (stream t.flushed
        (set_entry path t.entry (record fs { chunk_store = t.chunk_store }))) { index_dirty = true }

  abbrev pub flush_found : ℕ → ℕ → WolfDiskFs → Option WriteBuffer → WolfDiskFs
  flush_found now ino fs none = fs
  flush_found now ino fs (some b) =
      let removed = record fs { write_buffers = take_out ino fs.write_buffers } in
      if is_empty b.content then removed else flush_to now b removed (get_path ino fs.inode_table)

  unfoldable pub flush_write_buffer : ℕ → ℕ → WolfDiskFs → WolfDiskFs
  flush_write_buffer now ino fs = flush_found now ino fs (get ino fs.write_buffers)

  abbrev pub sync_found : FilePath → WolfDiskFs → Option FileEntry → WolfDiskFs
  sync_found path fs none = fs
  sync_found path fs (some e) = broadcast_file_sync_final path e fs

  abbrev pub sync_path : WolfDiskFs → Option FilePath → WolfDiskFs
  sync_path fs none = fs
  sync_path fs (some path) = sync_found path fs (entry_of path fs.file_index)

  unfoldable pub replicate_dirty : ℕ → WolfDiskFs → WolfDiskFs
  replicate_dirty ino fs =
      let cleaned = record fs { dirty_inodes = keep (λ i. not (i == ino)) fs.dirty_inodes } in
      if not (is_leader fs)
      then fs
      else if not (any (λ i. i == ino) fs.dirty_inodes)
      then fs
      else sync_path cleaned (get_path ino fs.inode_table)

  -- `release` on the leader; whether the index is due to be saved is an argument
  unfoldable pub release : ℕ → ℕ → ℕ → Bool → WolfDiskFs → WolfDiskFs
  release now ino fh due fs =
      let closed = record fs { open_files = take_out fh fs.open_files } in
      let last = replicate_dirty ino (flush_write_buffer now ino closed) in
      record last { index_dirty = if due then false else last.index_dirty }

  -- The part of a buffer that a read meets, laid over what the chunks gave
  abbrev pub overlay : ℕ → ℕ → WriteBuffer → List ℕ → List ℕ
  overlay read_start read_end b content =
      let buf_end = b.base_offset + length b.content in
      let overlap_start = max read_start b.base_offset in
      let overlap_end = min read_end buf_end in
      let at = overlap_start - read_start in
      let n = overlap_end - overlap_start in
      let wide =
        if ltb (length content) (at + n)
        then content ++ replicate (at + n - length content) 0
        else content in
      if ltb b.base_offset read_end && ltb read_start buf_end
      then take at wide
        ++ (take n (drop (overlap_start - b.base_offset) b.content) ++ drop (at + n) wide)
      else content

  abbrev pub overlaid : ℕ → ℕ → Option WriteBuffer → List ℕ → List ℕ
  overlaid read_start read_end none content = content
  overlaid read_start read_end (some b) content =
      if is_empty b.content then content else overlay read_start read_end b content

  -- A panic ends the thread; it has no reply.
  abbrev pub reply_read : (List ℕ → List ℕ) → ReadResult → Option (Outcome (List ℕ))
  reply_read f (bytes content) = some (done (f content))
  reply_read f (chunk_not_found hash) = some (error eio)
  reply_read f panics = none

  abbrev pub read_entry :
      ℕ → ℕ → ℕ → WolfDiskFs → Option FileEntry → Option (Outcome (List ℕ)) × WolfDiskFs
  read_entry ino offset size fs none = (some (error enoent), fs)
  read_entry ino offset size fs (some e) =
      let (r, s) = read e.chunks offset size fs.chunk_store in
      (
        reply_read (overlaid offset (offset + size) (get ino fs.write_buffers)) r,
        record fs { chunk_store = s },
      )

  abbrev pub read_path :
      ℕ → ℕ → ℕ → WolfDiskFs → Option FilePath → Option (Outcome (List ℕ)) × WolfDiskFs
  read_path ino offset size fs none = (some (error enoent), fs)
  read_path ino offset size fs (some path) =
      read_entry ino offset size fs (entry_of path fs.file_index)

  -- `read` on the leader
  unfoldable pub read_file : ℕ → ℕ → ℕ → WolfDiskFs → Option (Outcome (List ℕ)) × WolfDiskFs
  read_file ino offset size fs = read_path ino offset size fs (get_path ino fs.inode_table)
