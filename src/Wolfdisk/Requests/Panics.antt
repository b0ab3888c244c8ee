-- ===== src/Wolfdisk/Requests/Panics.antt =====
-- What the leader does in wolfdisk/src/main.rs when a file is written again.
use wolf_scale.Base.{
  ℕ, zero, suc, ◌+◌, ◌≤◌, ◌≡◌, refl, ap, ◌∙◌, true, false, some, List, [], ◌∷◌, ◌++◌, arith, ltb,
  min, length, take, drop, u64, u32, All,
}
use wolf_scale.Wolfdisk.Paths.{FilePath}
use wolf_scale.Wolfdisk.Chunks.{
  ChunkRef, ChunkStore, write, store, store_pieces, is_apart, sort_by_offset, insert_by_offset,
}
use wolf_scale.Wolfdisk.Chunks.Order.{keep-none}
use wolf_scale.Wolfdisk.Index.{FileEntry, entry_of}
use wolf_scale.Wolfdisk.Requests.{write_request, panicked, Leader, write_found, serve}

drop_all : (n : ℕ) (xs : List ℕ) → length xs ≤ n → drop n xs ≡ []
drop_all zero [] h = refl
drop_all zero (x ∷ xs) h = absurd (omega (arith, h))
drop_all (suc n) [] h = refl
drop_all (suc n) (x ∷ xs) h = drop_all n xs (omega (arith, h))

no_pieces :
    (sha256 : List ℕ → ℕ) (fuel o : ℕ) (s : ChunkStore) → (store_pieces sha256 fuel [] o s).0 ≡ []
unfolding store_pieces
no_pieces sha256 zero o s = refl
no_pieces sha256 (suc fuel) o s = refl

-- Content that fits a chunk is one piece.
one_piece :
    (sha256 : List ℕ → ℕ) (b : ℕ) (bs : List ℕ) (o : ℕ) (s : ChunkStore)
    → length (b ∷ bs) ≤ s.chunk_size
    → (k : ChunkRef) × ((store_pieces sha256 (length (b ∷ bs)) (b ∷ bs) o s).0 ≡ k ∷ [])
unfolding store_pieces
one_piece sha256 b bs o s fits =
    let n = min (length (b ∷ bs)) s.chunk_size in
    let piece = take n (b ∷ bs) in
    let all : drop n (b ∷ bs) ≡ [] = drop_all n (b ∷ bs) (omega (arith, fits)) in
    let k : ChunkRef = record { hash = (store sha256 piece s).0; offset = o; size = u32 n } in
    (
      k,
      ap
            (λ rest.
              k ∷ (store_pieces sha256 (length bs) rest (u64 (o + n)) (store sha256 piece s).1).0)
            all
          ∙ ap (λ ks. k ∷ ks) (no_pieces sha256 (length bs) (u64 (o + n)) (store sha256 piece s).1),
    )

one_chunk :
    (sha256 : List ℕ → ℕ) (chunks : List ChunkRef) (offset b : ℕ) (bs : List ℕ) (s : ChunkStore)
    → All (λ k. is_apart offset (u64 (offset + length (b ∷ bs))) k ≡ false) chunks
    → length (b ∷ bs) ≤ s.chunk_size
    → length (write sha256 chunks offset (b ∷ bs) s).1.0 ≡ 1
unfolding write sort_by_offset insert_by_offset
one_chunk sha256 chunks offset b bs s met fits =
    let (k, one) = one_piece sha256 b bs offset s fits in
    let p = is_apart offset (u64 (offset + length (b ∷ bs))) in
    let refs = (store_pieces sha256 (length (b ∷ bs)) (b ∷ bs) offset s).0 in
    ap (λ ks. length (sort_by_offset (ks ++ refs))) (keep-none p chunks met)
    ∙ ap (λ ks. length (sort_by_offset ks)) one

-- Asked to write content that fits one chunk over the whole of a file that it has in two chunks or
-- more, the leader panics.
pub serve-panicked :
    (sha256 : List ℕ → ℕ) (now : ℕ) (path : FilePath) (offset b : ℕ) (bs : List ℕ) (l : Leader)
    (entry : FileEntry)
    → entry_of path l.fs.file_index ≡ some entry
    → 2 ≤ length entry.chunks
    → All (λ k. is_apart offset (u64 (offset + length (b ∷ bs))) k ≡ false) entry.chunks
    → length (b ∷ bs) ≤ l.fs.chunk_store.chunk_size
    → (serve sha256 now (write_request path offset (b ∷ bs)) l).0 ≡ panicked
unfolding serve write_found
serve-panicked sha256 now path offset b bs l entry h several met fits =
    let chunks = (write sha256 entry.chunks offset (b ∷ bs) l.fs.chunk_store).1.0 in
    let one = one_chunk sha256 entry.chunks offset b bs l.fs.chunk_store met fits in
    let short : ltb (length chunks) (length entry.chunks) ≡ true = ground (arith, one, several) in
    simp (h, short) refl
