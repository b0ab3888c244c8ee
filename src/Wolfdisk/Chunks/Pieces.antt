-- ===== src/Wolfdisk/Chunks/Pieces.antt =====
-- The pieces that `write` of wolfdisk/src/storage/chunks.rs stores, and `read` over them.
use wolf_scale.Base.{
  ℕ, zero, suc, ◌+◌, ◌^◌, ◌≤◌, ◌<◌, min, ◌≡◌, refl, ap, sym, ◌∙◌, some, List, [], ◌∷◌, ◌++◌, arith,
  inl, inr, ◌==◌, length, take, drop, get, Bool-cases, Option-cases, u32, u64,
}
use wolf_scale.Wolfdisk.Chunks.{ChunkRef, ChunkStore, store, store_pieces}
use wolf_scale.Wolfdisk.Chunks.Store.{
  Coherent, Addressed, Grows, store_with_hash_new, store_with_hash_old, store_with_hash-Coherent,
  put_fresh, get_put_same, get_put_other, some-injective,
}

-- References whose chunks are the parts of some data, one after the other from an offset on.
abbrev pub Tiles : ChunkStore → ℕ → List ℕ → List ChunkRef → Type 0
Tiles s o content [] = content ≡ []
Tiles s o content (k ∷ ks) =
    (piece rest : List ℕ) × (content ≡ piece ++ rest)
    × (k.offset ≡ o)
    × (k.size ≡ length piece)
    × (1 ≤ length piece)
    × (get k.hash s.files ≡ some piece)
    × Tiles s (o + length piece) rest ks

pub Tiles-Grows :
    (s t : ChunkStore) (o : ℕ) (content : List ℕ) (ks : List ChunkRef)
    → Grows s t
    → Tiles s o content ks
    → Tiles t o content ks
Tiles-Grows s t o content [] grows h = h
Tiles-Grows s t o content (k ∷ ks) grows (piece, rest, split, at, n, some_bytes, there, more) = (
  piece,
  rest,
  split,
  at,
  n,
  some_bytes,
  grows k.hash piece there,
  Tiles-Grows s t (o + length piece) rest ks grows more,
)

take-drop : (n : ℕ) (xs : List ℕ) → take n xs ++ drop n xs ≡ xs
take-drop zero xs = refl
take-drop (suc n) [] = refl
take-drop (suc n) (x ∷ xs) = ap (λ l. x ∷ l) (take-drop n xs)

length-take : (n : ℕ) (xs : List ℕ) → n ≤ length xs → length (take n xs) ≡ n
length-take zero xs h = refl
length-take (suc n) [] h = absurd (omega (arith, h))
length-take (suc n) (x ∷ xs) h = ap suc (length-take n xs (omega (arith, h)))

length-drop : (n : ℕ) (xs : List ℕ) → n ≤ length xs → length (drop n xs) + n ≡ length xs
length-drop zero xs h = omega arith
length-drop (suc n) [] h = absurd (omega (arith, h))
length-drop (suc n) (x ∷ xs) h = omega (arith, length-drop n xs (omega (arith, h)))

module _ (sha256 : List ℕ → ℕ)
    -- No two contents have the same hash.
    (no_collision : (a b : List ℕ) → sha256 a ≡ sha256 b → a ≡ b) where
  -- What storing a content does to a right store
  record Stored (content : List ℕ) (s : ChunkStore) : Type 0 where
    coherent : Coherent (store sha256 content s).1
    addressed : Addressed sha256 (store sha256 content s).1
    there : get (sha256 content) (store sha256 content s).1.files ≡ some content
    grows : Grows s (store sha256 content s).1
    same_size : (store sha256 content s).1.chunk_size ≡ s.chunk_size

  store-Stored :
      (content : List ℕ) (s : ChunkStore) → Coherent s → Addressed sha256 s → Stored content s
  unfolding store
  store-Stored content s agree addressed = elim (Option-cases (get (sha256 content) s.files)) [
    | inr (old, found) ↦
        let same = store_with_hash_old (sha256 content) content old s found in
        record {
          coherent = rw same agree;
          addressed = rw same addressed;
          there =
              rw same
                (found ∙ ap some (no_collision old content (addressed (sha256 content) old found)));
          grows = rw same (λ h d e. e);
          same_size = rw same refl;
        }
    | inl new ↦
        let hash = sha256 content in
        let same = store_with_hash_new hash content s new in
        record {
          coherent = store_with_hash-Coherent hash content s agree;
          addressed = rw same (λ h d e. elim (Bool-cases (hash == h)) [
            | inr miss ↦ addressed h d (sym (get_put_other hash h content s.files miss) ∙ e)
            | inl hit ↦
                let what = some-injective (sym (get_put_same hash h content s.files hit) ∙ e) in
                let at : hash ≡ h = ground (arith, hit) in ap sha256 (sym what) ∙ at
          ]);
          there = rw same (get_put_same hash hash content s.files (ground arith));
          grows = rw same (λ h d e. put_fresh hash h content d s.files new e);
          same_size = rw same refl;
        }
  ]

  -- What the loop of `write` leaves
  pub record Laid (fuel : ℕ) (content : List ℕ) (o : ℕ) (s : ChunkStore) : Type 0 where
    pub tiles :
        Tiles
          (store_pieces sha256 fuel content o s).1.1
          o
          content
          (store_pieces sha256 fuel content o s).0
    pub ended : (store_pieces sha256 fuel content o s).1.0 ≡ []
    pub coherent : Coherent (store_pieces sha256 fuel content o s).1.1
    pub addressed : Addressed sha256 (store_pieces sha256 fuel content o s).1.1
    pub grows : Grows s (store_pieces sha256 fuel content o s).1.1

  pieces_step :
      (fuel b : ℕ) (bs : List ℕ) (o n : ℕ) (s : ChunkStore)
      → n ≡ min (length (b ∷ bs)) s.chunk_size
      → n < 2 ^ 32
      → o + n < 2 ^ 64
      → store_pieces sha256 (suc fuel) (b ∷ bs) o s ≡ (
          let (hash, next) = store sha256 (take n (b ∷ bs)) s in
          let (refs, last) = store_pieces sha256 fuel (drop n (b ∷ bs)) (o + n) next in
          (record { hash = hash; offset = o; size = n } ∷ refs, last))
  unfolding store_pieces
  pieces_step fuel b bs o n s is_min small fits =
      let size : u32 n ≡ n = omega (arith, small) in
      let next : u64 (o + n) ≡ o + n = omega (arith, fits) in rw (sym is_min, size, next) refl

  piece-Laid :
      (fuel : ℕ) (b : ℕ) (bs : List ℕ) (o n : ℕ) (s : ChunkStore)
      → n ≡ min (length (b ∷ bs)) s.chunk_size
      → 1 ≤ n
      → n ≤ length (b ∷ bs)
      → n < 2 ^ 32
      → o + n < 2 ^ 64
      → Stored (take n (b ∷ bs)) s
      → Laid fuel (drop n (b ∷ bs)) (o + n) (store sha256 (take n (b ∷ bs)) s).1
      → Laid (suc fuel) (b ∷ bs) o s
  piece-Laid fuel b bs o n s is_min some_bytes within small fits kept later =
      let step = pieces_step fuel b bs o n s is_min small fits in
      let long = length-take n (b ∷ bs) within in
      let last =
        (store_pieces sha256 fuel (drop n (b ∷ bs)) (o + n)
          (store sha256 (take n (b ∷ bs)) s).1).1.1 in
      let hash : (store sha256 (take n (b ∷ bs)) s).0 ≡ sha256 (take n (b ∷ bs)) =
        unfold store in refl in
      record {
        tiles = rw step (
          take n (b ∷ bs),
          drop n (b ∷ bs),
          sym (take-drop n (b ∷ bs)),
          refl,
          sym long,
          omega (arith, long, some_bytes),
          ap (λ h. get h last.files) hash
              ∙ later.grows (sha256 (take n (b ∷ bs))) (take n (b ∷ bs)) kept.there,
          rw long later.tiles,
        );
        ended = rw step later.ended;
        coherent = rw step later.coherent;
        addressed = rw step later.addressed;
        grows = rw step (λ h d e. later.grows h d (kept.grows h d e));
      }

  -- The loop ends, with rounds enough, and its references tile the data.
  pub store_pieces-Laid :
      (fuel : ℕ) (content : List ℕ) (o : ℕ) (s : ChunkStore)
      → Coherent s
      → Addressed sha256 s
      → 1 ≤ s.chunk_size
      → s.chunk_size < 2 ^ 32
      → length content ≤ fuel
      → o + length content < 2 ^ 64
      → Laid fuel content o s
  unfolding store_pieces
  store_pieces-Laid zero [] o s agree addressed some_size small enough fits = record {
    tiles = refl;
    ended = refl;
    coherent = agree;
    addressed = addressed;
    grows = λ h d e. e;
  }
  store_pieces-Laid zero (b ∷ bs) o s agree addressed some_size small enough fits =
      absurd (omega (arith, enough))
  store_pieces-Laid (suc fuel) [] o s agree addressed some_size small enough fits = record {
    tiles = refl;
    ended = refl;
    coherent = agree;
    addressed = addressed;
    grows = λ h d e. e;
  }
  store_pieces-Laid (suc fuel) (b ∷ bs) o s agree addressed some_size small enough fits =
      let n = min (length (b ∷ bs)) s.chunk_size in
      let kept = store-Stored (take n (b ∷ bs)) s agree addressed in
      let left : length (drop n (b ∷ bs)) + n ≡ length (b ∷ bs) =
        length-drop n (b ∷ bs) (omega arith) in
      piece-Laid fuel b bs o n s refl (omega (arith, some_size)) (omega arith)
        (omega (arith, small)) (omega (arith, fits)) kept
        (store_pieces-Laid fuel (drop n (b ∷ bs)) (o + n) (store sha256 (take n (b ∷ bs)) s).1
          kept.coherent kept.addressed (rw kept.same_size some_size) (rw kept.same_size small)
          (omega (arith, left, enough, some_size)) (omega (arith, left, fits)))
