-- ===== src/Wolfdisk/Chunks/Order.antt =====
-- The order of chunk references in wolfdisk/src/storage/chunks.rs.
use wolf_scale.Base.{
  ℕ, ◌≤◌, ◌≡◌, refl, ap, sym, ◌∙◌, Bool, true, false, List, [], ◌∷◌, ◌++◌, arith, All, keep, leb,
  if◌then◌else◌, Bool-cases, inl, inr,
}
use wolf_scale.Wolfdisk.Chunks.{ChunkRef, insert_by_offset, sort_by_offset}

abbrev pub AtLeast : ℕ → List ChunkRef → Type 0
AtLeast o ks = All (λ k. o ≤ k.offset) ks

abbrev pub Ordered : List ChunkRef → Type 0
Ordered [] = Unit {0}
Ordered (k ∷ ks) = AtLeast k.offset ks × Ordered ks

pub AtLeast-weaken : (m n : ℕ) (ks : List ChunkRef) → m ≤ n → AtLeast n ks → AtLeast m ks
AtLeast-weaken m n [] h a = tt
AtLeast-weaken m n (k ∷ ks) h (first, a) = (omega (arith, h, first), AtLeast-weaken m n ks h a)

keep-AtLeast :
    (p : ChunkRef → Bool) (o : ℕ) (ks : List ChunkRef) → AtLeast o ks → AtLeast o (keep p ks)
keep-AtLeast p o [] a = tt
keep-AtLeast p o (k ∷ ks) (first, a) = elim (Bool-cases (p k)) [
  | inl in_range ↦ rw in_range (first, keep-AtLeast p o ks a)
  | inr out ↦ rw out (keep-AtLeast p o ks a)
]

insert_front :
    (k : ChunkRef) (ks : List ChunkRef) → AtLeast k.offset ks → insert_by_offset k ks ≡ k ∷ ks
unfolding insert_by_offset
insert_front k [] a = refl
insert_front k (j ∷ js) (first, a) = ground (arith, first)

insert-AtLeast :
    (o : ℕ) (k : ChunkRef) (ks : List ChunkRef)
    → o ≤ k.offset
    → AtLeast o ks
    → AtLeast o (insert_by_offset k ks)
unfolding insert_by_offset
insert-AtLeast o k [] h a = (h, tt)
insert-AtLeast o k (j ∷ js) h (first, a) = elim (Bool-cases (leb k.offset j.offset)) [
  | inl before ↦ rw before (h, (first, a))
  | inr behind ↦ rw behind (first, insert-AtLeast o k js h a)
]

insert-Ordered : (k : ChunkRef) (ks : List ChunkRef) → Ordered ks → Ordered (insert_by_offset k ks)
unfolding insert_by_offset
insert-Ordered k [] s = (tt, tt)
insert-Ordered k (j ∷ js) (a, s) = elim (Bool-cases (leb k.offset j.offset)) [
  | inl before ↦
      let le : k.offset ≤ j.offset = ground (arith, before) in
      rw before ((le, AtLeast-weaken k.offset j.offset js le a), (a, s))
  | inr behind ↦
      let ge : j.offset ≤ k.offset = ground (arith, behind) in
      rw behind (insert-AtLeast j.offset k js ge a, insert-Ordered k js s)
]

-- Sorting puts the references in the order of their offsets.
pub sort-Ordered : (ks : List ChunkRef) → Ordered (sort_by_offset ks)
unfolding sort_by_offset
sort-Ordered [] = tt
sort-Ordered (k ∷ ks) = insert-Ordered k (sort_by_offset ks) (sort-Ordered ks)

keep-insert :
    (p : ChunkRef → Bool) (k : ChunkRef) (ks : List ChunkRef)
    → Ordered ks
    → keep p (insert_by_offset k ks) ≡ (if p k then insert_by_offset k (keep p ks) else keep p ks)
unfolding insert_by_offset
keep-insert p k [] s = refl
keep-insert p k (j ∷ js) (a, s) = elim (Bool-cases (leb k.offset j.offset)) [
  | inl before ↦
      let le : k.offset ≤ j.offset = ground (arith, before) in
      let kept = keep-AtLeast p k.offset (j ∷ js) (le, AtLeast-weaken k.offset j.offset js le a) in
      rw before (elim (Bool-cases (p k)) [
        | inl in_range ↦ rw in_range (sym (insert_front k (keep p (j ∷ js)) kept))
        | inr out ↦ rw out refl
      ])
  | inr behind ↦ ground (arith, behind, keep-insert p k js s)
]

-- Sorting what is kept is keeping what is sorted.
pub keep-sort :
    (p : ChunkRef → Bool) (ks : List ChunkRef)
    → keep p (sort_by_offset ks) ≡ sort_by_offset (keep p ks)
unfolding sort_by_offset
keep-sort p [] = refl
keep-sort p (k ∷ ks) = elim (Bool-cases (p k)) [
  | inl in_range ↦
      keep-insert p k (sort_by_offset ks) (sort-Ordered ks)
      ∙ rw in_range (ap (insert_by_offset k) (keep-sort p ks))
  | inr out ↦ keep-insert p k (sort_by_offset ks) (sort-Ordered ks) ∙ rw out (keep-sort p ks)
]

pub sort-idle : (ks : List ChunkRef) → Ordered ks → sort_by_offset ks ≡ ks
unfolding sort_by_offset
sort-idle [] s = refl
sort-idle (k ∷ ks) (a, s) = ap (insert_by_offset k) (sort-idle ks s) ∙ insert_front k ks a

pub keep-append :
    (p : ChunkRef → Bool) (xs ys : List ChunkRef) → keep p (xs ++ ys) ≡ keep p xs ++ keep p ys
keep-append p [] ys = refl
keep-append p (x ∷ xs) ys = ground (arith, keep-append p xs ys)

pub keep-none :
    (p : ChunkRef → Bool) (ks : List ChunkRef) → All (λ k. p k ≡ false) ks → keep p ks ≡ []
keep-none p [] h = refl
keep-none p (k ∷ ks) (first, h) = ground (arith, first, keep-none p ks h)

pub keep-everything :
    (p : ChunkRef → Bool) (ks : List ChunkRef) → All (λ k. p k ≡ true) ks → keep p ks ≡ ks
keep-everything p [] h = refl
keep-everything p (k ∷ ks) (first, h) = ground (arith, first, keep-everything p ks h)
