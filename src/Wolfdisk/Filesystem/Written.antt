-- ===== src/Wolfdisk/Filesystem/Written.antt =====
-- What the leader's `write`, `flush`, `fsync`, `release` and `setattr` of
-- wolfdisk/src/fuse/filesystem.rs keep.
use wolf_scale.Base.{
  ℕ, zero, suc, ◌≡◌, refl, ap, sym, ◌∙◌, Bool, true, Option, none, some, List, [], ◌∷◌, ◌==◌, not,
  any, get, put, length, leb, if◌then◌else◌, take_out, keep, drop, take, u64, Bool-cases, inl, inr,
  ◌+◌,
}
use wolf_scale.Wolfdisk.Paths.{FilePath}
use wolf_scale.Wolfdisk.Index.{FileEntry, entry_of}
use wolf_scale.Wolfdisk.Inodes.{get_path, root_inode}
use wolf_scale.Wolfdisk.Inodes.Agreement.{Agrees}
use wolf_scale.Wolfdisk.Cluster.{ClusterManager}
use wolf_scale.Wolfdisk.Filesystem.{
  WolfDiskFs, WriteBuffer, Message, Request, Outcome, done, is_leader,
}
use wolf_scale.Wolfdisk.Filesystem.Buffers.{
  Target, flush_content, flush_chunk, flush_full, buffer_write, stream, stream_with, set_entry,
  sync_if, grown, mark_dirty, target_of, write_path, write, flush_to, flush_found,
  flush_write_buffer, sync_path, sync_found, replicate_dirty, release, is_empty, buffer_of,
}
use wolf_scale.Wolfdisk.Filesystem.Attributes.{
  Change, sync_size, lead_change, setattr_at, setattr_known, setattr, changed, truncated,
}
use wolf_scale.Wolfdisk.Filesystem.Syncs.{flush, fsync}
use wolf_scale.Wolfdisk.Filesystem.Clients.{Forward}
use mathlib.Core.Path.{subst}
use wolf_scale.Wolfdisk.Filesystem.Sound.{replace-IsSound}
use wolf_scale.Wolfdisk.Filesystem.Valid.{IsValid, broadcast_file_sync_final-IsValid, either}

module _ (sha256 : List ℕ → ℕ) where
  -- A file that has no entry gets none.
  flush_content-none :
      (now offset : ℕ) (content : List ℕ) (t : Target)
      → t.entry ≡ none
      → (flush_content sha256 now content offset t).entry ≡ none
  unfolding flush_content
  flush_content-none now offset content t n = rw n refl

  flush_chunk-none :
      (now offset : ℕ) (piece : List ℕ) (t : Target)
      → t.entry ≡ none
      → (flush_chunk sha256 now piece offset t).entry ≡ none
  unfolding flush_chunk
  flush_chunk-none now offset piece t n = rw n refl

  flush_full-none :
      (now fuel : ℕ) (b : WriteBuffer) (t : Target)
      → t.entry ≡ none
      → (flush_full sha256 now fuel b t).1.entry ≡ none
  unfolding flush_full
  flush_full-none now zero b t n = n
  flush_full-none now (suc fuel) b t n =
      elim (Bool-cases (leb t.chunk_store.chunk_size (length b.content))) [
        | inl full ↦ simp full (
            flush_full-none now fuel
              (record {
                content = drop t.chunk_store.chunk_size b.content;
                base_offset = u64 (b.base_offset + t.chunk_store.chunk_size);
              })
              (flush_chunk sha256 now (take t.chunk_store.chunk_size b.content) b.base_offset t)
              (flush_chunk-none now b.base_offset (take t.chunk_store.chunk_size b.content) t n))
        | inr part ↦ simp part n
      ]

  buffer_write-none :
      (now offset : ℕ) (content : List ℕ) (b : WriteBuffer) (t : Target)
      → t.entry ≡ none
      → (buffer_write sha256 now offset content b t).1.entry ≡ none
  unfolding buffer_write
  buffer_write-none now offset content b t n =
      elim (Bool-cases (offset == u64 (b.base_offset + length b.content))) [
        | inl on ↦ simp on (flush_full-none now _ _ t n)
        | inr off ↦ elim (Bool-cases (is_empty sha256 b.content)) [
          | inl blank ↦ simp (off, blank) (flush_full-none now _ _ t n)
          | inr some_bytes ↦
              simp (off, some_bytes)
                (flush_full-none now _ _ (flush_content sha256 now b.content b.base_offset t)
                  (flush_content-none now b.base_offset b.content t n))
        ]
      ]

  -- A new entry of a file whose inode is known
  set_entry-IsValid :
      (ino : ℕ) (p : FilePath) (o : Option FileEntry) (fs : WolfDiskFs)
      → get_path ino fs.inode_table ≡ some p
      → (entry_of p fs.file_index ≡ none → o ≡ none)
      → IsValid fs
      → IsValid (set_entry sha256 p o fs)
  unfolding Agrees
  set_entry-IsValid ino p none fs known still v = v
  set_entry-IsValid ino p (some e) fs known still v =
      replace-IsSound fs.file_index fs.inode_table fs.next_inode ino p e v
        (λ z. cc (still (ap (λ q. entry_of q fs.file_index) z ∙ v.unindexed)))
        (v.agrees.0 ino p known)

  stream_with-IsValid :
      (ms : List Message) (fs : WolfDiskFs) (o : Option ClusterManager)
      → IsValid fs
      → IsValid (stream_with sha256 ms fs o)
  stream_with-IsValid ms fs none v = v
  stream_with-IsValid ms fs (some m) v = v

  -- What was queued changes neither the index nor the inode table.
  Alike : WolfDiskFs → WolfDiskFs → Type 0
  Alike fs fs' = (fs'.file_index ≡ fs.file_index) × (fs'.inode_table ≡ fs.inode_table)

  stream_with-Alike :
      (ms : List Message) (fs : WolfDiskFs) (o : Option ClusterManager)
      → Alike fs (stream_with sha256 ms fs o)
  unfolding Alike
  stream_with-Alike ms fs none = (refl, refl)
  stream_with-Alike ms fs (some m) = (refl, refl)

  stream-Alike : (ms : List Message) (fs : WolfDiskFs) → Alike fs (stream sha256 ms fs)
  unfolding stream Alike
  stream-Alike ms fs =
      either (Alike fs) (is_leader fs) (stream_with sha256 ms fs fs.cluster) fs
        (stream_with-Alike ms fs fs.cluster) (refl, refl)

  stream-IsValid :
      (ms : List Message) (fs : WolfDiskFs) → IsValid fs → IsValid (stream sha256 ms fs)
  unfolding stream
  stream-IsValid ms fs v =
      either IsValid (is_leader fs) (stream_with sha256 ms fs fs.cluster) fs
        (stream_with-IsValid ms fs fs.cluster v) v

  sync_if-IsValid :
      (ms : List Message) (p : FilePath) (o : Option FileEntry) (fs : WolfDiskFs)
      → IsValid fs
      → IsValid (sync_if sha256 ms p o fs)
  sync_if-IsValid [] p o fs v = v
  sync_if-IsValid (m ∷ ms) p none fs v = v
  sync_if-IsValid (m ∷ ms) p (some e) fs v = broadcast_file_sync_final-IsValid p e fs v

  grown-none :
      (now new_end : ℕ) (o : Option FileEntry) → o ≡ none → grown sha256 now new_end o ≡ none
  grown-none now new_end o n = rw n refl

  write_path-IsValid :
      (now ino offset : ℕ) (content : List ℕ) (fs : WolfDiskFs) (o : Option FilePath)
      → get_path ino fs.inode_table ≡ o
      → IsValid fs
      → IsValid ((write_path sha256 now ino offset content fs o).1)
  unfolding mark_dirty Alike
  write_path-IsValid now ino offset content fs none known v = v
  write_path-IsValid now ino offset content fs (some p) known v =
      let b = buffer_of sha256 offset (get ino fs.write_buffers) in
      let (b', t) = buffer_write sha256 now offset content b (target_of sha256 p fs) in
      let o = grown sha256 now (u64 (b'.base_offset + length b'.content)) t.entry in
      let stored : WolfDiskFs = record fs {
        write_buffers = put ino b' fs.write_buffers;
        chunk_store = t.chunk_store;
      } in
      let told = stream sha256 t.flushed stored in
      let (index, table) = stream-Alike t.flushed stored in
      sync_if-IsValid t.flushed p o (set_entry sha256 p o told) (
        set_entry-IsValid ino p o told (ap (get_path ino) table ∙ known)
          (λ n. grown-none now (u64 (b'.base_offset + length b'.content)) t.entry (
            buffer_write-none now offset content b (target_of sha256 p fs)
              (ap (entry_of p) (sym index) ∙ n)))
          (stream-IsValid t.flushed stored v))

  pub write-IsValid :
      (now ino offset : ℕ) (content : List ℕ) (fs : WolfDiskFs)
      → IsValid fs
      → IsValid ((write sha256 now ino offset content fs).1)
  unfolding write
  write-IsValid now ino offset content fs v =
      write_path-IsValid now ino offset content fs (get_path ino fs.inode_table) refl v

  flush_to-IsValid :
      (now ino : ℕ) (b : WriteBuffer) (fs : WolfDiskFs) (o : Option FilePath)
      → get_path ino fs.inode_table ≡ o
      → IsValid fs
      → IsValid (flush_to sha256 now b fs o)
  flush_to-IsValid now ino b fs none known v = v
  flush_to-IsValid now ino b fs (some p) known v =
      let t = flush_content sha256 now b.content b.base_offset (target_of sha256 p fs) in
      let stored : WolfDiskFs = record fs { chunk_store = t.chunk_store } in
      stream-IsValid t.flushed (set_entry sha256 p t.entry stored) (
        set_entry-IsValid ino p t.entry stored known
          (λ n. flush_content-none now b.base_offset b.content (target_of sha256 p fs) n) v)

  flush_found-IsValid :
      (now ino : ℕ) (fs : WolfDiskFs) (o : Option WriteBuffer)
      → IsValid fs
      → IsValid (flush_found sha256 now ino fs o)
  flush_found-IsValid now ino fs none v = v
  flush_found-IsValid now ino fs (some b) v =
      let removed : WolfDiskFs = record fs { write_buffers = take_out ino fs.write_buffers } in
      either IsValid (is_empty sha256 b.content) removed
        (flush_to sha256 now b removed (get_path ino fs.inode_table)) v
        (flush_to-IsValid now ino b removed (get_path ino fs.inode_table) refl v)

  pub flush_write_buffer-IsValid :
      (now ino : ℕ) (fs : WolfDiskFs) → IsValid fs → IsValid (flush_write_buffer sha256 now ino fs)
  unfolding flush_write_buffer
  flush_write_buffer-IsValid now ino fs v =
      flush_found-IsValid now ino fs (get ino fs.write_buffers) v

  pub flush-IsValid :
      (accepts : Forward → Outcome (Unit {0})) (now ino : ℕ) (fs : WolfDiskFs)
      → is_leader fs ≡ true
      → IsValid fs
      → IsValid ((flush sha256 accepts now ino fs).1)
  flush-IsValid accepts now ino fs leads v =
      let alike : (flush sha256 accepts now ino fs).1 ≡ flush_write_buffer sha256 now ino fs =
        (unfold flush in rw leads refl) in
      subst (λ s. IsValid s) (sym alike) (flush_write_buffer-IsValid now ino fs v)

  pub fsync-IsValid :
      (now ino : ℕ) (fs : WolfDiskFs) → IsValid fs → IsValid (fsync sha256 now ino fs)
  unfolding fsync
  fsync-IsValid now ino fs v =
      either IsValid (is_leader fs) (flush_write_buffer sha256 now ino fs) fs
        (flush_write_buffer-IsValid now ino fs v) v

  sync_found-IsValid :
      (p : FilePath) (fs : WolfDiskFs) (o : Option FileEntry)
      → IsValid fs
      → IsValid (sync_found sha256 p fs o)
  sync_found-IsValid p fs none v = v
  sync_found-IsValid p fs (some e) v = broadcast_file_sync_final-IsValid p e fs v

  sync_path-IsValid :
      (fs : WolfDiskFs) (o : Option FilePath) → IsValid fs → IsValid (sync_path sha256 fs o)
  sync_path-IsValid fs none v = v
  sync_path-IsValid fs (some p) v = sync_found-IsValid p fs (entry_of p fs.file_index) v

  replicate_dirty-IsValid :
      (ino : ℕ) (fs : WolfDiskFs) → IsValid fs → IsValid (replicate_dirty sha256 ino fs)
  unfolding replicate_dirty
  replicate_dirty-IsValid ino fs v =
      let cleaned : WolfDiskFs = record fs {
        dirty_inodes = keep (λ i. not (i == ino)) fs.dirty_inodes;
      } in
      let synced = sync_path sha256 cleaned (get_path ino fs.inode_table) in
      let dirty = any (λ i. i == ino) fs.dirty_inodes in
      either IsValid (not (is_leader fs)) fs (if not dirty then fs else synced) v (
        either IsValid (not dirty) fs synced v
          (sync_path-IsValid cleaned (get_path ino fs.inode_table) v))

  pub release-IsValid :
      (now ino fh : ℕ) (due : Bool) (fs : WolfDiskFs)
      → IsValid fs
      → IsValid (release sha256 now ino fh due fs)
  unfolding release
  release-IsValid now ino fh due fs v =
      let closed : WolfDiskFs = record fs { open_files = take_out fh fs.open_files } in
      replicate_dirty-IsValid ino (flush_write_buffer sha256 now ino closed)
        (flush_write_buffer-IsValid now ino closed v)

sync_size-IsValid :
    (o : Option ℕ) (p : FilePath) (e : FileEntry) (fs : WolfDiskFs)
    → IsValid fs
    → IsValid (sync_size o p e fs)
sync_size-IsValid none p e fs v = v
sync_size-IsValid (some n) p e fs v = broadcast_file_sync_final-IsValid p e fs v

lead_change-IsValid :
    (ino : ℕ) (p : FilePath) (c : Change) (fs : WolfDiskFs) (o : Option FileEntry)
    → get_path ino fs.inode_table ≡ some p
    → entry_of p fs.file_index ≡ o
    → IsValid fs
    → IsValid ((lead_change ino p c fs o).1)
unfolding Agrees
lead_change-IsValid ino p c fs none known there v = v
lead_change-IsValid ino p c fs (some e) known there v =
    let e' = changed c (truncated c.size e) in
    sync_size-IsValid c.size p e' _ (
      replace-IsSound fs.file_index fs.inode_table fs.next_inode ino p e' v
        (λ z. cc (sym there ∙ ap (λ q. entry_of q fs.file_index) z ∙ v.unindexed))
        (v.agrees.0 ino p known))

-- Dropping a buffer leaves the rest.
setattr_at-IsValid :
    (ino : ℕ) (c : Change) (p : FilePath) (size : Option ℕ) (fs : WolfDiskFs)
    → get_path ino fs.inode_table ≡ some p
    → is_leader fs ≡ true
    → IsValid fs
    → c.size ≡ size
    → IsValid ((setattr_at (done tt) ino c fs p).1)
unfolding setattr_at is_leader
setattr_at-IsValid ino c p none fs known leads v e =
    simp (e, leads) (lead_change-IsValid ino p c fs (entry_of p fs.file_index) known refl v)
setattr_at-IsValid ino c p (some n) fs known leads v e =
    let dropped : WolfDiskFs = record fs { write_buffers = take_out ino fs.write_buffers } in
    simp (e, leads) (lead_change-IsValid ino p c dropped (entry_of p fs.file_index) known refl v)

setattr_known-IsValid :
    (ino : ℕ) (c : Change) (fs : WolfDiskFs) (o : Option FilePath)
    → get_path ino fs.inode_table ≡ o
    → is_leader fs ≡ true
    → IsValid fs
    → IsValid ((setattr_known (done tt) ino c fs o).1)
setattr_known-IsValid ino c fs none known leads v = v
setattr_known-IsValid ino c fs (some p) known leads v =
    setattr_at-IsValid ino c p c.size fs known leads v refl

pub setattr-IsValid :
    (now : ℕ) (user : Request) (ino : ℕ) (c : Change) (fs : WolfDiskFs)
    → is_leader fs ≡ true
    → IsValid fs
    → IsValid ((setattr (done tt) now user ino c fs).1)
unfolding setattr
setattr-IsValid now user ino c fs leads v = elim (Bool-cases (ino == root_inode)) [
  | inl root ↦ simp root v
  | inr other ↦
      simp other (setattr_known-IsValid ino c fs (get_path ino fs.inode_table) refl leads v)
]
