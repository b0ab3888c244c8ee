-- ===== src/Wal/Segment/Seals.antt =====
-- Sealing a segment of wal/segment.rs: the header is written anew and the entries stay.
use wolf_scale.Base.{
  ℕ, zero, suc, ◌+◌, ◌-◌, ◌≤◌, ◌≡◌, refl, ap, sym, ◌∙◌, true, List, [], ◌∷◌, ◌++◌, arith, length,
  drop, length-append, to_le_bytes, from_le_bytes,
}
use wolf_scale.Error.{Result, ok, err}
use wolf_scale.Wal.Segment.{
  Codec, Segment, SegmentHeader, seal, read_at, read_exact, and_then, write_at, to_bytes,
}

length-to_bytes : (h : SegmentHeader) → length (to_bytes h) ≡ 32
unfolding to_bytes to_le_bytes
length-to_bytes h = refl

drop_nothing : (k : ℕ) → drop {A = ℕ} k [] ≡ []
drop_nothing zero = refl
drop_nothing (suc k) = refl

drop-drop : (p n : ℕ) (f : List ℕ) → drop p (drop n f) ≡ drop (n + p) f
drop-drop p zero f = ap (λ k. drop k f) (omega arith)
drop-drop p (suc n) [] = drop_nothing p ∙ sym (drop_nothing (suc n + p))
drop-drop p (suc n) (x ∷ f) =
    let e : suc n + p ≡ suc (n + p) = omega arith in rw e (drop-drop p n f)

drop-append-past : (p : ℕ) (xs ys : List ℕ) → drop (length xs + p) (xs ++ ys) ≡ drop p ys
drop-append-past p [] ys = ap (λ k. drop k ys) (omega arith)
drop-append-past p (x ∷ xs) ys =
    let e : suc (length xs) + p ≡ suc (length xs + p) = omega arith in
    rw e (drop-append-past p xs ys)

length-drop : (n : ℕ) (f : List ℕ) → length (drop n f) ≡ length f - n
length-drop zero f = omega arith
length-drop (suc n) [] = omega arith
length-drop (suc n) (x ∷ f) = omega (arith, length-drop n f)

-- A new header over the old one, and the rest as it was
seal-file :
    (s : Segment) → (seal s).file ≡ to_bytes (record s.header { sealed = true }) ++ drop 32 s.file
unfolding seal write_at
seal-file s =
    let none : 0 - length s.file ≡ 0 = omega arith in
    rw (none, length-to_bytes (record s.header { sealed = true })) refl

pub length-seal : (s : Segment) → 32 ≤ length s.file → length (seal s).file ≡ length s.file
length-seal s h =
    let bytes = to_bytes (record s.header { sealed = true }) in
    rw (seal-file s) (
      omega (
        arith,
        length-append bytes (drop 32 s.file),
        length-drop 32 s.file,
        length-to_bytes (record s.header { sealed = true }),
      ))

drop-seal : (p : ℕ) (s : Segment) → drop (32 + p) (seal s).file ≡ drop (32 + p) s.file
drop-seal p s =
    let bytes = to_bytes (record s.header { sealed = true }) in
    let long = length-to_bytes (record s.header { sealed = true }) in
    rw (seal-file s)
      (rw long at (drop-append-past p bytes (drop 32 s.file)) ∙ drop-drop p 32 s.file)

read_exact-seal :
    (p n : ℕ) (s : Segment)
    → 32 ≤ p
    → 32 ≤ length s.file
    → read_exact p n (seal s).file ≡ read_exact p n s.file
unfolding read_exact
read_exact-seal p n s h k =
    let past : 32 + (p - 32) ≡ p = omega (arith, h) in
    rw (length-seal s k, rw past at (drop-seal (p - 32) s)) refl

and_then_same :
    {A B : Type 0} (r r' : Result A) (f g : A → Result B)
    → r ≡ r'
    → ((a : A) → f a ≡ g a)
    → and_then r f ≡ and_then r' g
and_then_same {A = A} r r' f g same each = rw same (go r')
  where
    go : (q : Result A) → and_then q f ≡ and_then q g
    go (ok a) = each a
    go (err e) = refl

-- Sealing leaves every read behind the header as it was.
pub read_at-seal :
    (c : Codec) (p : ℕ) (s : Segment)
    → 32 ≤ p
    → 32 ≤ length s.file
    → read_at c p (seal s).file ≡ read_at c p s.file
unfolding read_at
read_at-seal c p s h k =
    let same : (q n : ℕ) → 32 ≤ q → read_exact q n (seal s).file ≡ read_exact q n s.file =
      λ q n past. read_exact-seal q n s past k in
    and_then_same _ _ _ _ (same p 4 h) (λ len_bytes.
      and_then_same _ _ _ _ (same (p + 4) 1 (omega (arith, h))) (λ flag.
        and_then_same _ _ _ _ (same (p + 5) (from_le_bytes len_bytes) (omega (arith, h))) (λ body.
          and_then_same _ _ _ _ (same (p + 5 + from_le_bytes len_bytes) 4 (omega (arith, h)))
            (λ sum. refl))))
