-- ===== src/Wolfdisk/Chunks/Ranges.antt =====
-- `read` of wolfdisk/src/storage/chunks.rs depends on the chunks alone that have a byte in the range.
use wolf_scale.Base.{
  ℕ, ◌≤◌, ◌≡◌, refl, sym, ◌∙◌, Bool, true, false, not, ◌||◌, Option, none, some, List, [], ◌∷◌,
  ◌++◌, arith, inl, inr, leb, keep, Bool-cases,
}
use wolf_scale.Wolfdisk.Chunks.{
  ChunkRef, ChunkStore, fetch, read_loop, read_chunk, extend, part, chunk_end, is_apart, ReadResult,
  bytes,
}
use wolf_scale.Wolfdisk.Chunks.Order.{AtLeast, Ordered}

-- The reference has a byte in the range.
abbrev pub meets : ℕ → ℕ → ChunkRef → Bool
meets offset end_offset k = not (is_apart offset end_offset k)

module _ (offset end_offset size : ℕ) where
  extend-same :
      (o : Option (List ℕ)) (result : List ℕ) (s : ChunkStore)
      (f g : List ℕ → ChunkStore → ReadResult × ChunkStore)
      → ((r : List ℕ) (t : ChunkStore) → f r t ≡ g r t)
      → extend size o result s f ≡ extend size o result s g
  extend-same none result s f g h = refl
  extend-same (some more) result s f g h = rw (h (result ++ more) s) refl

  read_chunk-same :
      (k : ChunkRef) (found : Option (List ℕ) × ChunkStore) (result : List ℕ)
      (f g : List ℕ → ChunkStore → ReadResult × ChunkStore)
      → ((r : List ℕ) (t : ChunkStore) → f r t ≡ g r t)
      → read_chunk offset end_offset size k found result f
        ≡ read_chunk offset end_offset size k found result g
  read_chunk-same k (none, s) result f g h = refl
  read_chunk-same k (some content, s) result f g h =
      extend-same (part offset end_offset k content) result s f g h

  beyond :
      (k : ChunkRef) (ks : List ChunkRef)
      → end_offset ≤ k.offset
      → AtLeast k.offset ks
      → keep (meets offset end_offset) ks ≡ []
  unfolding is_apart
  beyond k [] h a = refl
  beyond k (j ∷ js) h (first, a) =
      let out : meets offset end_offset j ≡ false = ground (arith, h, first) in
      rw out (beyond k js h a)

  loop_before :
      (k : ChunkRef) (ks : List ChunkRef) (result : List ℕ) (s : ChunkStore)
      → leb (chunk_end k) offset ≡ true
      → read_loop offset end_offset size (k ∷ ks) result s
        ≡ read_loop offset end_offset size ks result s
  unfolding read_loop
  loop_before k ks result s h = simp h refl

  loop_past :
      (k : ChunkRef) (ks : List ChunkRef) (result : List ℕ) (s : ChunkStore)
      → leb (chunk_end k) offset ≡ false
      → leb end_offset k.offset ≡ true
      → read_loop offset end_offset size (k ∷ ks) result s ≡ (bytes result, s)
  unfolding read_loop
  loop_past k ks result s h past = simp (h, past) refl

  pub loop_within :
      (k : ChunkRef) (ks : List ChunkRef) (result : List ℕ) (s : ChunkStore)
      → leb (chunk_end k) offset ≡ false
      → leb end_offset k.offset ≡ false
      → read_loop offset end_offset size (k ∷ ks) result s
        ≡ read_chunk offset end_offset size k
            (fetch k.hash s)
            result
            (read_loop offset end_offset size ks)
  unfolding read_loop
  loop_within k ks result s h past = simp (h, past) refl

  meets_iff :
      (k : ChunkRef) (x y : Bool)
      → leb (chunk_end k) offset ≡ x
      → leb end_offset k.offset ≡ y
      → meets offset end_offset k ≡ not (x || y)
  unfolding is_apart
  meets_iff k x y h past = simp (h, past) refl

  meets_before :
      (k : ChunkRef) → leb (chunk_end k) offset ≡ true → meets offset end_offset k ≡ false
  unfolding is_apart
  meets_before k h = simp h refl

  -- Over references in order, those that have no byte in the range do not matter.
  pub read_loop-keep :
      (ks : List ChunkRef) (result : List ℕ) (s : ChunkStore)
      → Ordered ks
      → read_loop offset end_offset size ks result s
        ≡ read_loop offset end_offset size (keep (meets offset end_offset) ks) result s
  read_loop-keep [] result s o = refl
  read_loop-keep (k ∷ ks) result s (a, o) = elim (Bool-cases (leb (chunk_end k) offset)) [
    | inl before ↦
        loop_before k ks result s before
        ∙ read_loop-keep ks result s o
        ∙ rw (meets_before k before) refl
    | inr more ↦ elim (Bool-cases (leb end_offset k.offset)) [
      | inl past ↦
          let le : end_offset ≤ k.offset = ground (arith, past) in
          loop_past k ks result s more past
          ∙ rw (meets_iff k false true more past, beyond k ks le a) (unfold read_loop in refl)
      | inr within ↦
          loop_within k ks result s more within
          ∙ read_chunk-same k (fetch k.hash s) result (read_loop offset end_offset size ks)
              (read_loop offset end_offset size (keep (meets offset end_offset) ks))
              (λ r t. read_loop-keep ks r t o)
          ∙ rw (meets_iff k false false more within)
              (sym (loop_within k (keep (meets offset end_offset) ks) result s more within))
    ]
  ]

pub meets_within :
    (offset end_offset : ℕ) (k : ChunkRef)
    → leb (chunk_end k) offset ≡ false
    → leb end_offset k.offset ≡ false
    → meets offset end_offset k ≡ true
meets_within offset end_offset k after before =
    meets_iff offset end_offset 0 k false false after before
