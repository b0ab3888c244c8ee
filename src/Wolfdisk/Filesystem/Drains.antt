-- ===== src/Wolfdisk/Filesystem/Drains.antt =====
-- What `drain_client_writes` of wolfdisk/src/fuse/filesystem.rs sends of what was written.
mod Tests
use wolf_scale.Base.{
  ℕ, ◌+◌, ◌-◌, ◌≤◌, ◌<◌, ◌≡◌, refl, ap, sym, ◌∙◌, Bool, true, false, Option, none, some, List, [],
  ◌∷◌, ◌++◌, ltb, leb, ◌==◌, if◌then◌else◌, arith, Bool-cases, inl, inr, ◌⊎◌, length, drop, All,
  get, put, get-put,
}
use mathlib.Core.Path.{subst}
use wolf_scale.Wolfdisk.Paths.{FilePath}
use wolf_scale.Wolfdisk.Inodes.{get_path}
use wolf_scale.Wolfdisk.Filesystem.{WolfDiskFs, ClientWriteEntry, Outcome, done, error}
use wolf_scale.Wolfdisk.Filesystem.Clients.{
  Segment, extended, coalesce_onto, coalesce, insert_segment, sort_segments, Forward, write_at,
  set_size, forward_writes, forward_entry, drained, drain_client_writes, write_back, cache_write,
  cached, push_segment, unless_error,
}
use wolf_scale.Wolfdisk.Filesystem.Segments.{
  or_else, byte_in, first_byte, AscendsFrom, AscendsFrom-weaken, base-extended,
  first_byte-coalesce_onto,
}

insert-AscendsFrom :
    (b : ℕ) (s : Segment) (ts : List Segment)
    → b ≤ s.0
    → AscendsFrom b ts
    → AscendsFrom b (insert_segment s ts)
unfolding insert_segment AscendsFrom
insert-AscendsFrom b s [] h a = (h, tt)
insert-AscendsFrom b s (t ∷ ts) h (k, a) = elim (Bool-cases (leb s.0 t.0)) [
  | inl e ↦ simp e (h, (ground (arith, e), a))
  | inr e ↦ simp e (k, insert-AscendsFrom t.0 s ts (ground (arith, e)) a)
]

sort-AscendsFrom : (ts : List Segment) → AscendsFrom 0 (sort_segments ts)
unfolding sort_segments AscendsFrom
sort-AscendsFrom [] = tt
sort-AscendsFrom (s ∷ ts) =
    insert-AscendsFrom 0 s (sort_segments ts) (omega arith) (sort-AscendsFrom ts)

first_byte-coalesce :
    (p : ℕ) (ts : List Segment) → AscendsFrom 0 ts → first_byte p (coalesce ts) ≡ first_byte p ts
unfolding coalesce AscendsFrom first_byte
first_byte-coalesce p [] a = refl
first_byte-coalesce p (s ∷ ts) (_, a) = first_byte-coalesce_onto p s ts a

-- No position has a byte in both segments.
unfoldable pub AreApart : Segment → Segment → Type 0
AreApart s t = (p : ℕ) → (byte_in p s ≡ none) ⊎ (byte_in p t ≡ none)

-- No two of the segments overlap.
unfoldable pub NoOverlap : List Segment → Type 0
unfolding AreApart
NoOverlap [] = Unit {0}
NoOverlap (s ∷ ts) = All (AreApart s) ts × NoOverlap ts

swap_apart :
    (x y r : Option ℕ) → (x ≡ none) ⊎ (y ≡ none) → or_else x (or_else y r) ≡ or_else y (or_else x r)
swap_apart none y r h = refl
swap_apart (some a) none r h = refl
swap_apart (some a) (some b) r (inl e) = cc e
swap_apart (some a) (some b) r (inr e) = cc e

first_byte-insert :
    (p : ℕ) (s : Segment) (ts : List Segment)
    → All (AreApart s) ts
    → first_byte p (insert_segment s ts) ≡ or_else (byte_in p s) (first_byte p ts)
unfolding first_byte insert_segment AreApart
first_byte-insert p s [] a = refl
first_byte-insert p s (t ∷ ts) (h, a) = elim (Bool-cases (leb s.0 t.0)) [
  | inl e ↦ simp e refl
  | inr e ↦ simp e (
      ap (or_else (byte_in p t)) (first_byte-insert p s ts a)
      ∙ sym (swap_apart (byte_in p s) (byte_in p t) (first_byte p ts) (h p)))
]

insert-All :
    (P : Segment → Type 0) (s : Segment) (ts : List Segment)
    → P s
    → All P ts
    → All P (insert_segment s ts)
unfolding insert_segment
insert-All P s [] h a = (h, tt)
insert-All P s (t ∷ ts) h (k, a) = elim (Bool-cases (leb s.0 t.0)) [
  | inl e ↦ simp e (h, (k, a))
  | inr e ↦ simp e (k, insert-All P s ts h a)
]

sort-All : (P : Segment → Type 0) (ts : List Segment) → All P ts → All P (sort_segments ts)
unfolding sort_segments
sort-All P [] a = tt
sort-All P (s ∷ ts) (h, a) = insert-All P s (sort_segments ts) h (sort-All P ts a)

first_byte-sort :
    (p : ℕ) (ts : List Segment) → NoOverlap ts → first_byte p (sort_segments ts) ≡ first_byte p ts
unfolding first_byte sort_segments NoOverlap
first_byte-sort p [] n = refl
first_byte-sort p (s ∷ ts) (a, n) =
    first_byte-insert p s (sort_segments ts) (sort-All (AreApart s) ts a)
    ∙ ap (or_else (byte_in p s)) (first_byte-sort p ts n)

-- Between each segment and the next there is a gap.
unfoldable pub HasGaps : List Segment → Type 0
HasGaps [] = Unit {0}
HasGaps (s ∷ []) = Unit {0}
HasGaps (s ∷ t ∷ ts) = (s.0 + length s.1 < t.0) × HasGaps (t ∷ ts)

-- The first of the segments begins at a position.
BeginsAt : ℕ → List Segment → Type 0
BeginsAt b [] = ⊥
BeginsAt b (s ∷ ts) = s.0 ≡ b

coalesce_onto-BeginsAt :
    (last : Segment) (ts : List Segment) → BeginsAt last.0 (coalesce_onto last ts)
unfolding coalesce_onto BeginsAt
coalesce_onto-BeginsAt last [] = refl
coalesce_onto-BeginsAt last (s ∷ ts) = elim (Bool-cases (leb s.0 (last.0 + length last.1))) [
  | inl touch ↦ simp touch (
      subst (λ b. BeginsAt b (coalesce_onto (extended last s) ts)) (base-extended last s)
        (coalesce_onto-BeginsAt (extended last s) ts))
  | inr gap ↦ simp gap refl
]

gap_before :
    (s : Segment) (b : ℕ) (ts : List Segment)
    → s.0 + length s.1 < b
    → BeginsAt b ts
    → HasGaps ts
    → HasGaps (s ∷ ts)
unfolding HasGaps BeginsAt
gap_before s b [] h k g = tt
gap_before s b (t ∷ ts) h k g = (omega (arith, h, k), g)

coalesce_onto-HasGaps : (last : Segment) (ts : List Segment) → HasGaps (coalesce_onto last ts)
unfolding coalesce_onto HasGaps
coalesce_onto-HasGaps last [] = tt
coalesce_onto-HasGaps last (s ∷ ts) = elim (Bool-cases (leb s.0 (last.0 + length last.1))) [
  | inl touch ↦ simp touch (coalesce_onto-HasGaps (extended last s) ts)
  | inr gap ↦ simp gap (
      gap_before last s.0 (coalesce_onto s ts) (ground (arith, gap)) (coalesce_onto-BeginsAt s ts)
        (coalesce_onto-HasGaps s ts))
]

coalesce-HasGaps : (ts : List Segment) → HasGaps (coalesce ts)
unfolding coalesce HasGaps
coalesce-HasGaps [] = tt
coalesce-HasGaps (s ∷ ts) = coalesce_onto-HasGaps s ts

-- If no two of the segments that were written overlap, then what is sent of them has for every
-- position the byte that was written there, and none where none was, and there is a gap between what
-- is sent at one offset and at the next.
pub first_byte-coalesce-sort_segments :
    (segments : List Segment)
    → NoOverlap segments
    → ((p : ℕ) → first_byte p (coalesce (sort_segments segments)) ≡ first_byte p segments)
      × HasGaps (coalesce (sort_segments segments))
first_byte-coalesce-sort_segments segments n = (
  λ p.
      first_byte-coalesce p (sort_segments segments) (sort-AscendsFrom segments)
      ∙ first_byte-sort p segments n,
  coalesce-HasGaps (sort_segments segments),
)

same_key : (n : ℕ) → (n == n) ≡ true
same_key n = ground arith

extended_short :
    (offset : ℕ) (content content' : List ℕ)
    → length content' ≤ length content
    → extended (offset, content) (offset, content') ≡ (offset, content)
extended_short offset [] [] h = ground arith
extended_short offset [] (b ∷ bs) h = absurd (omega (arith, h))
extended_short offset (b ∷ bs) content' h =
    let inside : ltb offset (offset + length (b ∷ bs)) ≡ true = ground arith in
    let covered : ltb (offset + length (b ∷ bs) - offset) (length content') ≡ false =
      ground (arith, h) in
    simp (inside, covered) refl

coalesce_twice :
    (offset : ℕ) (content content' : List ℕ)
    → length content' ≤ length content
    → coalesce (sort_segments ((offset, content) ∷ (offset, content') ∷ []))
      ≡ (offset, content) ∷ []
unfolding coalesce coalesce_onto sort_segments insert_segment
coalesce_twice offset content content' h =
    let same : leb offset offset ≡ true = ground arith in
    let touch : leb offset (offset + length content) ≡ true = ground arith in
    simp (same, touch) (ap (λ s. s ∷ []) (extended_short offset content content' h))

one_forward : (f : Forward) (r : Outcome (Unit {0})) → (unless_error f r (done tt, [])).1 ≡ f ∷ []
one_forward f (done _) = refl
one_forward f (error e) = refl

one_segment :
    (accepts : Forward → Outcome (Unit {0})) (path : FilePath) (offset : ℕ) (content : List ℕ)
    (segments : List Segment)
    → coalesce (sort_segments segments) ≡ (offset, content) ∷ []
    → (forward_writes accepts path (coalesce (sort_segments segments))).1
      ≡ write_at path offset content ∷ []
unfolding forward_writes
one_segment accepts path offset content segments e =
    rw e (one_forward (write_at path offset content) (accepts (write_at path offset content)))

-- When a file that has nothing in the cache is written twice at one offset, the second time with no
-- more bytes than the first, only the first content is sent to the leader.
pub rewritten_is_lost :
    (accepts : Forward → Outcome (Unit {0})) (now now' ino offset : ℕ) (content content' : List ℕ)
    (fs : WolfDiskFs) (path : FilePath)
    → get ino fs.client_write_cache ≡ none
    → get_path ino fs.inode_table ≡ some path
    → length content' ≤ length content
    → let once = (write_back now ino offset content fs).1 in
      let twice = (write_back now' ino offset content' once).1 in
      (drain_client_writes accepts ino twice).0.1 ≡ write_at path offset content ∷ []
unfolding write_back drain_client_writes
rewritten_is_lost accepts now now' ino offset content content' fs path empty known short =
    let once = (write_back now ino offset content fs).1 in
    let twice = (write_back now' ino offset content' once).1 in
    let first = push_segment offset content (cached path 0 none) in
    let entry = push_segment offset content' first in
    let one : once.client_write_cache ≡ put ino first fs.client_write_cache =
      rw (known, cache_write) (simp (empty) refl) in
    let found : get ino once.client_write_cache ≡ some first =
      ap (get ino) one ∙ get-put ino ino first fs.client_write_cache ∙ simp (same_key ino) refl in
    let still : get_path ino once.inode_table ≡ some path = rw (known, cache_write) known in
    let two : twice.client_write_cache ≡ put ino entry once.client_write_cache =
      rw (still, cache_write) (simp (found) refl) in
    let last : get ino twice.client_write_cache ≡ some entry =
      ap (get ino) two ∙ get-put ino ino entry once.client_write_cache ∙ simp (same_key ino) refl in
    ap (λ o. (drained accepts o).1) last
    ∙ one_segment accepts path offset content ((offset, content) ∷ (offset, content') ∷ [])
        (coalesce_twice offset content content' short)
