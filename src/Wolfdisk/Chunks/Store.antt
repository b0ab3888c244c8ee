-- ===== src/Wolfdisk/Chunks/Store.antt =====
-- The cache and the files of wolfdisk/src/storage/chunks.rs agree, over every operation.
use wolf_scale.Base.{
  ℕ, ◌≡◌, refl, ap, sym, ◌∙◌, true, false, Option, none, some, List, [], ◌∷◌, arith, ◌⊎◌, inl, inr,
  leb, ◌==◌, length, get, put, take_out, get-put, get-take_out, Bool-cases, Option-cases,
}
use wolf_scale.Wolfdisk.Cache.{ReadCache, look_up, evict, insert_unless, insert, remove}
use wolf_scale.Wolfdisk.Chunks.{ChunkStore, exists, store_with_hash, fetch_from, fetch, delete}

-- What the cache has is what the file has.
abbrev pub Coherent : ChunkStore → Type 0
Coherent s = (h : ℕ) (d : List ℕ) → get h s.read_cache.entries ≡ some d → get h s.files ≡ some d

-- Each file is under the hash of its content.
abbrev pub Addressed : (List ℕ → ℕ) → ChunkStore → Type 0
Addressed sha256 s = (h : ℕ) (d : List ℕ) → get h s.files ≡ some d → sha256 d ≡ h

-- The second store has all that the first has.
abbrev pub Grows : ChunkStore → ChunkStore → Type 0
Grows s t = (h : ℕ) (d : List ℕ) → get h s.files ≡ some d → get h t.files ≡ some d

pub some-injective : {A : Type 0} {a b : A} → some a ≡ some b → a ≡ b
some-injective h = cc

none-some : {A : Type 0} {a : A} → none ≡ some a → ⊥
none-some h = cc

pub get_put_same :
    (k h : ℕ) (e : List ℕ) (m : List (ℕ × List ℕ)) → (k == h) ≡ true → get h (put k e m) ≡ some e
get_put_same k h e m hit = get-put k h e m ∙ rw hit refl

pub get_put_other :
    (k h : ℕ) (e : List ℕ) (m : List (ℕ × List ℕ)) → (k == h) ≡ false → get h (put k e m) ≡ get h m
get_put_other k h e m miss = get-put k h e m ∙ rw miss refl

pub put_fresh :
    (k h : ℕ) (e d : List ℕ) (m : List (ℕ × List ℕ))
    → get k m ≡ none
    → get h m ≡ some d
    → get h (put k e m) ≡ some d
put_fresh k h e d m new there = elim (Bool-cases (k == h)) [
  | inr miss ↦ get_put_other k h e m miss ∙ there
  | inl hit ↦
      let same : k ≡ h = ground (arith, hit) in
      absurd (none-some (sym new ∙ ap (λ n. get n m) same ∙ there))
]

taken : (k h : ℕ) (m : List (ℕ × List ℕ)) → (k == h) ≡ true → get h (take_out k m) ≡ none
taken k h m hit = get-take_out k h m ∙ rw hit refl

left : (k h : ℕ) (m : List (ℕ × List ℕ)) → (k == h) ≡ false → get h (take_out k m) ≡ get h m
left k h m miss = get-take_out k h m ∙ rw miss refl

look_up_cases :
    (h : ℕ) (c : ReadCache)
    → ((look_up h c).0 ≡ get h c.entries) × ((look_up h c).1.entries ≡ c.entries)
unfolding look_up
look_up_cases h c = elim (Option-cases (get h c.entries)) [
  | inl out ↦ (ground (arith, out), ground (arith, out))
  | inr (d, there) ↦ (ground (arith, there), ground (arith, there))
]

get-evict :
    (order : List ℕ) (c : ReadCache) (h : ℕ) (d : List ℕ)
    → get h (evict order c).entries ≡ some d
    → get h c.entries ≡ some d
unfolding evict
get-evict [] c h d there = there
get-evict (k ∷ order) c h d there = elim (Bool-cases (leb c.capacity (length c.entries))) [
  | inl full ↦
      let left =
        get-evict order (record c { entries = take_out k c.entries }) h d (simp full at there) in
      ground (arith, left, get-take_out k h c.entries)
  | inr room ↦ simp room at there
]

insert_unless_get :
    (o : Option (List ℕ)) (k : ℕ) (e : List ℕ) (c : ReadCache) (h : ℕ) (d : List ℕ)
    → get h (insert_unless o k e c).entries ≡ some d
    → (get h c.entries ≡ some d) ⊎ ((k ≡ h) × (e ≡ d))
insert_unless_get (some _) k e c h d there = inl there
insert_unless_get none k e c h d there = elim (Bool-cases (k == h)) [
  | inl hit ↦ inr (
    ground (arith, hit),
    some-injective (sym (get_put_same k h e (evict c.access_order c).entries hit) ∙ there),
  )
  | inr miss ↦ inl (
      get-evict c.access_order c h d
        (sym (get_put_other k h e (evict c.access_order c).entries miss) ∙ there))
]

pub get-insert :
    (k : ℕ) (e : List ℕ) (c : ReadCache) (h : ℕ) (d : List ℕ)
    → get h (insert k e c).entries ≡ some d
    → (get h c.entries ≡ some d) ⊎ ((k ≡ h) × (e ≡ d))
unfolding insert
get-insert k e c h d there = insert_unless_get (get k c.entries) k e c h d there

-- The parts of a fetch, given what the cache and the file have
fetch_from_cases :
    (o f : Option (List ℕ)) (used : ReadCache) (h : ℕ) (s : ChunkStore)
    → Coherent s
    → used.entries ≡ s.read_cache.entries
    → o ≡ get h s.read_cache.entries
    → f ≡ get h s.files
    → ((fetch_from (o, used) f h s).0 ≡ f)
      × ((fetch_from (o, used) f h s).1.files ≡ s.files)
      × ((fetch_from (o, used) f h s).1.chunk_size ≡ s.chunk_size)
      × Coherent (fetch_from (o, used) f h s).1
fetch_from_cases (some content) f used h s agree same there file = (
  sym (agree h content (sym there)) ∙ sym file,
  refl,
  refl,
  λ k d e. agree k d (ap (get k) (sym same) ∙ e),
)
fetch_from_cases none none used h s agree same there file =
    (refl, refl, refl, λ k d e. agree k d (ap (get k) (sym same) ∙ e))
fetch_from_cases none (some content) used h s agree same there file = (
  refl,
  refl,
  refl,
  λ k d e. elim (get-insert h content used k d e) [
    | inl old ↦ agree k d (ap (get k) (sym same) ∙ old)
    | inr (at, what) ↦ ap (λ n. get n s.files) (sym at) ∙ sym file ∙ ap some what
  ],
)

-- A fetch gives what the file has, changes no file and keeps the cache right.
pub fetch_cases :
    (h : ℕ) (s : ChunkStore)
    → Coherent s
    → ((fetch h s).0 ≡ get h s.files)
      × ((fetch h s).1.files ≡ s.files)
      × ((fetch h s).1.chunk_size ≡ s.chunk_size)
      × Coherent (fetch h s).1
unfolding fetch
fetch_cases h s agree =
    let (same, kept) = look_up_cases h s.read_cache in
    fetch_from_cases (look_up h s.read_cache).0 (get h s.files) (look_up h s.read_cache).1 h s agree
      kept same refl

pub store_with_hash_new :
    (h : ℕ) (d : List ℕ) (s : ChunkStore)
    → get h s.files ≡ none
    → store_with_hash h d s
      ≡ record s { files = put h d s.files; read_cache = insert h d s.read_cache }
unfolding store_with_hash exists
store_with_hash_new h d s new = ground (arith, new)

pub store_with_hash_old :
    (h : ℕ) (d e : List ℕ) (s : ChunkStore) → get h s.files ≡ some e → store_with_hash h d s ≡ s
unfolding store_with_hash exists
store_with_hash_old h d e s old = ground (arith, old)

-- Storing, too, keeps the cache right, whatever the hash.
pub store_with_hash-Coherent :
    (h : ℕ) (d : List ℕ) (s : ChunkStore) → Coherent s → Coherent (store_with_hash h d s)
store_with_hash-Coherent h d s agree = elim (Option-cases (get h s.files)) [
  | inr (e, old) ↦ rw (store_with_hash_old h d e s old) agree
  | inl new ↦ rw (store_with_hash_new h d s new) (λ k e there.
      elim (get-insert h d s.read_cache k e there) [
        | inl cached ↦ put_fresh h k d e s.files new (agree k e cached)
        | inr (at, what) ↦
            ap (λ n. get n (put h d s.files)) (sym at)
            ∙ get_put_same h h d s.files (ground arith)
            ∙ ap some what
      ])
]

-- What is deleted is gone from both, and the rest stays.
pub delete-Coherent : (h : ℕ) (s : ChunkStore) → Coherent s → Coherent (delete h s)
unfolding delete remove
delete-Coherent h s agree k d there = elim (Bool-cases (h == k)) [
  | inl hit ↦ absurd (none-some (sym (taken h k s.read_cache.entries hit) ∙ there))
  | inr miss ↦ left h k s.files miss ∙ agree k d (sym (left h k s.read_cache.entries miss) ∙ there)
]
