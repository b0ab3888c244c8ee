-- ===== src/Wolfdisk/Chunks/RoundTrip.antt =====
-- What `write` of wolfdisk/src/storage/chunks.rs puts into a file, `read` gives back.
use wolf_scale.Base.{
  ℕ, ◌+◌, ◌-◌, ◌^◌, ◌≤◌, ◌<◌, ◌≡◌, refl, ap, sym, ◌∙◌, true, false, not, Option, none, some, List,
  [], ◌∷◌, ◌++◌, arith, inl, inr, leb, ltb, All, length, length-append, append_assoc, append-nil,
  take, get, keep, Bool-cases, u64,
}
use wolf_scale.Wolfdisk.Chunks.{
  ChunkRef, ChunkStore, fetch, read, write, store_pieces, read_loop, read_chunk, extend, part,
  chunk_end, is_apart, sort_by_offset, ReadResult, bytes,
}
use wolf_scale.Wolfdisk.Chunks.Store.{Coherent, Addressed, Grows, fetch_cases, some-injective}
use wolf_scale.Wolfdisk.Chunks.Pieces.{Tiles, Tiles-Grows, store_pieces-Laid}
use wolf_scale.Wolfdisk.Chunks.Ranges.{meets, meets_within, read_loop-keep, loop_within}
use wolf_scale.Wolfdisk.Chunks.Order.{
  AtLeast, Ordered, sort-Ordered, keep-sort, sort-idle, keep-append, keep-none, keep-everything,
}

take_whole : (xs : List ℕ) → take (length xs) xs ≡ xs
take_whole [] = refl
take_whole (x ∷ xs) = ap (λ l. x ∷ l) (take_whole xs)

nothing_left : (xs : List ℕ) → length xs ≡ 0 → xs ≡ []
nothing_left [] h = refl
nothing_left (x ∷ xs) h = absurd (omega (arith, h))

part_whole :
    (offset end_offset : ℕ) (k : ChunkRef) (piece : List ℕ)
    → offset ≤ k.offset
    → chunk_end k ≤ end_offset
    → part offset end_offset k piece ≡ some piece
part_whole offset end_offset k piece start within =
    let whole : length piece - 0 ≡ length piece = omega arith in
    let not_before : ltb k.offset offset ≡ false = ground (arith, start) in
    let not_past : ltb end_offset (chunk_end k) ≡ false = ground (arith, within) in
    let some_room : leb 0 (length piece) ≡ true = ground arith in
    simp (not_before, not_past, whole, some_room, take_whole piece) refl

read_chunk_found :
    (offset end_offset size : ℕ) (k : ChunkRef) (found : Option (List ℕ) × ChunkStore)
    (result piece : List ℕ) (f : List ℕ → ChunkStore → ReadResult × ChunkStore)
    → found.0 ≡ some piece
    → read_chunk offset end_offset size k found result f
      ≡ extend size (part offset end_offset k piece) result found.1 f
read_chunk_found offset end_offset size k (none, s) result piece f h = cc
read_chunk_found offset end_offset size k (some content, s) result piece f h =
    ap (λ c. extend size (part offset end_offset k c) result s f) (some-injective h)

module _ (offset end_offset size : ℕ) where
  read_loop-Tiles :
      (ks : List ChunkRef) (o : ℕ) (content result : List ℕ) (s : ChunkStore)
      → Coherent s
      → Tiles s o content ks
      → offset ≤ o
      → end_offset ≡ o + length content
      → end_offset < 2 ^ 64
      → size ≡ length result + length content
      → (read_loop offset end_offset size ks result s).0 ≡ bytes (result ++ content)
  read_loop-Tiles [] o content result s agree t start ends fits whole =
      unfold read_loop in ap bytes (sym (append-nil result) ∙ ap (λ l. result ++ l) (sym t))
  read_loop-Tiles (k ∷ ks) o content result s agree
        (piece, rest, split, at, n, some_bytes, there, more) start ends fits whole =
      let total : length content ≡ length piece + length rest =
        omega (arith, ap (λ l. length l) split, length-append piece rest) in
      let stop : chunk_end k ≡ o + length piece = omega (arith, at, n, total, ends, fits) in
      let after : leb (chunk_end k) offset ≡ false = ground (arith, stop, start, some_bytes) in
      let before : leb end_offset k.offset ≡ false = ground (arith, at, ends, total, some_bytes) in
      let (found, files, _, agree') = fetch_cases k.hash s agree in
      let s' = (fetch k.hash s).1 in
      let taken =
        part_whole offset end_offset k piece (omega (arith, start, at))
          (omega (arith, stop, ends, total)) in
      let onward = read_loop offset end_offset size ks in
      let long : length (result ++ piece) ≡ length result + length piece =
        omega (arith, length-append result piece) in
      let joined : (result ++ piece) ++ rest ≡ result ++ content =
        append_assoc result piece rest ∙ ap (λ l. result ++ l) (sym split) in
      ap (λ r. r.0)
        (loop_within offset end_offset size k ks result s after before
          ∙ read_chunk_found offset end_offset size k (fetch k.hash s) result piece onward
              (found ∙ there)
          ∙ ap (λ p. extend size p result s' onward) taken)
      ∙ elim (Bool-cases (leb size (length (result ++ piece)))) [
        | inl full ↦
            let none_left = nothing_left rest (ground (arith, full, long, total, whole)) in
            simp full (
              ap bytes (
                sym (append-nil (result ++ piece))
                ∙ ap (λ l. (result ++ piece) ++ l) (sym none_left)
                ∙ joined))
        | inr room ↦ simp room (
            read_loop-Tiles ks (o + length piece) rest (result ++ piece) s' agree'
              (Tiles-Grows s s' (o + length piece) rest ks (λ h d e. ap (get h) files ∙ e) more)
              (omega (arith, start)) (omega (arith, ends, total)) fits
              (omega (arith, whole, long, total))
            ∙ ap bytes joined)
      ]

Tiles-AtLeast :
    (s : ChunkStore) (ks : List ChunkRef) (o m : ℕ) (content : List ℕ)
    → m ≤ o
    → Tiles s o content ks
    → AtLeast m ks
Tiles-AtLeast s [] o m content h t = tt
Tiles-AtLeast s (k ∷ ks) o m content h (piece, rest, split, at, n, some_bytes, there, more) =
    (omega (arith, h, at), Tiles-AtLeast s ks (o + length piece) m rest (omega (arith, h)) more)

Tiles-Ordered :
    (s : ChunkStore) (ks : List ChunkRef) (o : ℕ) (content : List ℕ)
    → Tiles s o content ks
    → Ordered ks
Tiles-Ordered s [] o content t = tt
Tiles-Ordered s (k ∷ ks) o content (piece, rest, split, at, n, some_bytes, there, more) = (
  Tiles-AtLeast s ks (o + length piece) k.offset rest (omega (arith, at)) more,
  Tiles-Ordered s ks (o + length piece) rest more,
)

Tiles-meets :
    (s : ChunkStore) (ks : List ChunkRef) (offset end_offset o : ℕ) (content : List ℕ)
    → Tiles s o content ks
    → offset ≤ o
    → end_offset ≡ o + length content
    → end_offset < 2 ^ 64
    → All (λ k. meets offset end_offset k ≡ true) ks
Tiles-meets s [] offset end_offset o content t start ends fits = tt
Tiles-meets s (k ∷ ks) offset end_offset o content
      (piece, rest, split, at, n, some_bytes, there, more) start ends fits =
    let total : length content ≡ length piece + length rest =
      omega (arith, ap (λ l. length l) split, length-append piece rest) in
    let stop : chunk_end k ≡ o + length piece = omega (arith, at, n, total, ends, fits) in
    let after : leb (chunk_end k) offset ≡ false = ground (arith, stop, start, some_bytes) in
    let before : leb end_offset k.offset ≡ false = ground (arith, at, ends, total, some_bytes) in
    (
      meets_within offset end_offset k after before,
      Tiles-meets s ks offset end_offset (o + length piece) rest more (omega (arith, start))
          (omega (arith, ends, total)) fits,
    )

apart-meets :
    (offset end_offset : ℕ) (ks : List ChunkRef)
    → All (λ k. meets offset end_offset k ≡ false) (keep (is_apart offset end_offset) ks)
apart-meets offset end_offset [] = tt
apart-meets offset end_offset (k ∷ ks) = elim (Bool-cases (is_apart offset end_offset k)) [
  | inl apart ↦ rw apart (ap not apart, apart-meets offset end_offset ks)
  | inr near ↦ rw near (apart-meets offset end_offset ks)
]

-- Of the references after a write, those with a byte in its range are the new ones, in order.
new_refs :
    (s : ChunkStore) (offset end_offset : ℕ) (content : List ℕ) (chunks refs : List ChunkRef)
    → Tiles s offset content refs
    → end_offset ≡ offset + length content
    → end_offset < 2 ^ 64
    → keep
        (meets offset end_offset)
        (sort_by_offset (keep (is_apart offset end_offset) chunks ++ refs))
      ≡ refs
new_refs s offset end_offset content chunks refs t ends fits =
    let p = meets offset end_offset in
    let apart = keep (is_apart offset end_offset) chunks in
    keep-sort p (apart ++ refs)
    ∙ ap sort_by_offset (
        keep-append p apart refs
        ∙ ap (λ l. l ++ keep p refs) (keep-none p apart (apart-meets offset end_offset chunks))
        ∙ keep-everything p refs
            (Tiles-meets s refs offset end_offset offset content t (omega arith) ends fits))
    ∙ sort-idle refs (Tiles-Ordered s refs offset content t)

-- The cache agrees with the files after a write too.
pub write-Coherent :
    (sha256 : List ℕ → ℕ) (chunks : List ChunkRef) (offset b : ℕ) (bs : List ℕ) (s : ChunkStore)
    → ((x y : List ℕ) → sha256 x ≡ sha256 y → x ≡ y)
    → Coherent s
    → Addressed sha256 s
    → 1 ≤ s.chunk_size
    → s.chunk_size < 2 ^ 32
    → offset + length (b ∷ bs) < 2 ^ 64
    → Coherent (write sha256 chunks offset (b ∷ bs) s).1.1
unfolding write
write-Coherent sha256 chunks offset b bs s no_collision agree addressed some_size small fits =
    (store_pieces-Laid sha256 no_collision (length (b ∷ bs)) (b ∷ bs) offset s agree addressed
      some_size small (omega arith) fits).coherent

-- A store that has come to hold more, with its cache in agreement, still reads what was written.
pub read-write_later :
    (sha256 : List ℕ → ℕ) (chunks : List ChunkRef) (offset b : ℕ) (bs : List ℕ) (s t : ChunkStore)
    → ((x y : List ℕ) → sha256 x ≡ sha256 y → x ≡ y)
    → Coherent s
    → Addressed sha256 s
    → 1 ≤ s.chunk_size
    → s.chunk_size < 2 ^ 32
    → offset + length (b ∷ bs) < 2 ^ 64
    → Coherent t
    → Grows (write sha256 chunks offset (b ∷ bs) s).1.1 t
    → (read (write sha256 chunks offset (b ∷ bs) s).1.0 offset (length (b ∷ bs)) t).0
      ≡ bytes (b ∷ bs)
unfolding write read
read-write_later sha256 chunks offset b bs s t no_collision agree addressed some_size small fits
      agree' grows =
    let content = b ∷ bs in
    let laid =
      store_pieces-Laid sha256 no_collision (length content) content offset s agree addressed
        some_size small (omega arith) fits in
    let end_offset = u64 (offset + length content) in
    let ends : end_offset ≡ offset + length content = omega (arith, fits) in
    let below : end_offset < 2 ^ 64 = omega arith in
    let (refs, (_, last)) = store_pieces sha256 (length content) content offset s in
    let all = sort_by_offset (keep (is_apart offset end_offset) chunks ++ refs) in
    ap (λ r. r.0)
      (read_loop-keep offset end_offset (length content) all [] t
        (sort-Ordered (keep (is_apart offset end_offset) chunks ++ refs)))
    ∙ ap (λ ks. (read_loop offset end_offset (length content) ks [] t).0)
        (new_refs last offset end_offset content chunks refs laid.tiles ends below)
    ∙ read_loop-Tiles offset end_offset (length content) refs offset content [] t agree'
        (Tiles-Grows last t offset content refs grows laid.tiles) (omega arith) ends below
        (omega arith)

-- What is written at an offset of a file, whatever chunks it had, is all written, and a read of the
-- same range gives it back, if the hash has no collision, the chunk size is between 1 and 2^32 - 1,
-- the range fits 64 bits, the cache agrees with the files, and these are under their hashes.
pub read-write_range :
    (sha256 : List ℕ → ℕ) (chunks : List ChunkRef) (offset b : ℕ) (bs : List ℕ) (s : ChunkStore)
    → ((x y : List ℕ) → sha256 x ≡ sha256 y → x ≡ y)
    → Coherent s
    → Addressed sha256 s
    → 1 ≤ s.chunk_size
    → s.chunk_size < 2 ^ 32
    → offset + length (b ∷ bs) < 2 ^ 64
    → ((write sha256 chunks offset (b ∷ bs) s).0 ≡ length (b ∷ bs))
      × ((read
            (write sha256 chunks offset (b ∷ bs) s).1.0
            offset
            (length (b ∷ bs))
            (write sha256 chunks offset (b ∷ bs) s).1.1).0
          ≡ bytes (b ∷ bs))
unfolding write
read-write_range sha256 chunks offset b bs s no_collision agree addressed some_size small fits =
    let laid =
      store_pieces-Laid sha256 no_collision (length (b ∷ bs)) (b ∷ bs) offset s agree addressed
        some_size small (omega arith) fits in
    (
      rw laid.ended (omega arith),
      read-write_later sha256 chunks offset b bs s (write sha256 chunks offset (b ∷ bs) s).1.1
          no_collision agree addressed some_size small fits laid.coherent (λ h d e. e),
    )
