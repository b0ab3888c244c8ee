-- ===== src/Wolfdisk/Requests/Writes.antt =====
-- What the leader answers in wolfdisk/src/main.rs when a file is written and read.
use wolf_scale.Base.{
  ℕ, ◌+◌, ◌^◌, ◌≤◌, ◌<◌, ◌≡◌, refl, ap, ◌∙◌, false, some, List, [], ◌∷◌, arith, ltb, length, drop,
  get, u64,
}
use wolf_scale.Wolfdisk.Paths.{FilePath, path_eq_refl}
use wolf_scale.Wolfdisk.Chunks.{ChunkRef, ChunkStore, fetch, write}
use wolf_scale.Wolfdisk.Chunks.Store.{Coherent, Addressed, Grows, fetch_cases}
use wolf_scale.Wolfdisk.Chunks.RoundTrip.{write-Coherent, read-write_later}
use wolf_scale.Wolfdisk.Index.{FileEntry, entry_of, add_entry}
use wolf_scale.Wolfdisk.Filesystem.Clients.{grow_entry}
use wolf_scale.Wolfdisk.Filesystem.Sound.{entry_of-add_entry}
use wolf_scale.Wolfdisk.Requests.{
  Request, write_request, read_request, Answer, success, contents, panicked, Leader, note_change,
  stream_chunks, stream_written, write_found, read_found, answer_read, serve,
}

-- Streaming only fetches.
stream_chunks_cases :
    (ks : List ChunkRef) (s : ChunkStore) (queue : List (ℕ × List ℕ))
    → Coherent s
    → Coherent (stream_chunks ks s queue).0 × Grows s (stream_chunks ks s queue).0
unfolding stream_chunks
stream_chunks_cases [] s queue agree = (agree, λ h d e. e)
stream_chunks_cases (k ∷ ks) s queue agree =
    let (found, files, _, agree') = fetch_cases k.hash s agree in
    let (last, grows) =
      stream_chunks_cases ks (fetch k.hash s).1
        (wolf_scale.Wolfdisk.Requests.queued k.hash (fetch k.hash s).0 queue) agree' in
    (last, λ h d e. grows h d (ap (get h) files ∙ e))

-- When the leader is asked to write to a file that it has and the file then has at least as many
-- chunks as before, it answers with success, and asked next for the range that was written it answers
-- with the content, if the hash has no collision, the chunk size is between 1 and 2^32 - 1, the range
-- fits 64 bits, the cache agrees with the files, and these are under their hashes.
pub serve-read_request-write_request :
    (sha256 : List ℕ → ℕ) (now now' : ℕ) (path : FilePath) (offset b : ℕ) (bs : List ℕ) (l : Leader)
    (entry : FileEntry)
    → entry_of path l.fs.file_index ≡ some entry
    → length entry.chunks ≤ length (write sha256 entry.chunks offset (b ∷ bs) l.fs.chunk_store).1.0
    → ((x y : List ℕ) → sha256 x ≡ sha256 y → x ≡ y)
    → Coherent l.fs.chunk_store
    → Addressed sha256 l.fs.chunk_store
    → 1 ≤ l.fs.chunk_store.chunk_size
    → l.fs.chunk_store.chunk_size < 2 ^ 32
    → offset + length (b ∷ bs) < 2 ^ 64
    → let (a, l') = serve sha256 now (write_request path offset (b ∷ bs)) l in
      (a ≡ success)
      × ((serve sha256 now' (read_request path offset (length (b ∷ bs))) l').0 ≡ contents (b ∷ bs))
unfolding serve write_found note_change read_found
serve-read_request-write_request sha256 now now' path offset b bs l entry h long no_collision agree
      addressed some_size small fits =
    let (written, (chunks, s)) = write sha256 entry.chunks offset (b ∷ bs) l.fs.chunk_store in
    let entry' = grow_entry now (u64 (offset + written)) (record entry { chunks = chunks }) in
    let enough : ltb (length chunks) (length entry.chunks) ≡ false = ground (arith, long) in
    let (agree', grows) =
      stream_chunks_cases (drop (length entry.chunks) chunks) s l.chunk_stream_queue (
        write-Coherent sha256 entry.chunks offset b bs l.fs.chunk_store no_collision agree addressed
          some_size small fits) in
    let t = (stream_chunks (drop (length entry.chunks) chunks) s l.chunk_stream_queue).0 in
    let known : entry_of path (add_entry path entry' l.fs.file_index) ≡ some entry' =
      entry_of-add_entry path path entry' l.fs.file_index ∙ simp (path_eq_refl path) refl in
    let back =
      read-write_later sha256 entry.chunks offset b bs l.fs.chunk_store t no_collision agree
        addressed some_size small fits agree' grows in
    simp (h, enough) (refl, simp known (ap answer_read back))
