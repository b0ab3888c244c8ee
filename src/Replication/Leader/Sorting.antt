-- ===== src/Replication/Leader/Sorting.antt =====
-- `sort_unstable` and the index that replication/leader.rs takes from its result: for any numbers
-- and any quorum of at least one, the number at that index is the largest that a quorum reaches.
use wolf_scale.Base.{
  ℕ, zero, suc, ◌+◌, ◌-◌, ◌≤◌, ◌<◌, ◌≡◌, refl, none, some, List, [], ◌∷◌, arith, All, leb, length,
  get_elem?, count, Bool-cases, inl, inr,
}
use wolf_scale.Replication.Leader.{insert_sorted, sort, quorum_lsn}

-- How many of the numbers have reached `n`.
abbrev pub reached : ℕ → List ℕ → ℕ
reached n ms = count (λ m. leb n m) ms

unfoldable IsSorted : List ℕ → Type 0
IsSorted [] = Unit {0}
IsSorted (n ∷ ns) = All (λ m. n ≤ m) ns × IsSorted ns

All-insert_sorted :
    (b n : ℕ) (ms : List ℕ) → b ≤ n → All (λ m. b ≤ m) ms → All (λ m. b ≤ m) (insert_sorted n ms)
unfolding insert_sorted
All-insert_sorted b n [] h a = (h, tt)
All-insert_sorted b n (m ∷ ms) h (a, rest) = ground (arith, All-insert_sorted b n ms h rest)

All-le : (a b : ℕ) (ms : List ℕ) → a ≤ b → All (λ m. b ≤ m) ms → All (λ m. a ≤ m) ms
All-le a b [] h t = t
All-le a b (m ∷ ms) h (k, rest) = (omega (arith, h, k), All-le a b ms h rest)

insert_sorted-IsSorted : (n : ℕ) (ms : List ℕ) → IsSorted ms → IsSorted (insert_sorted n ms)
unfolding insert_sorted IsSorted
insert_sorted-IsSorted n [] h = (tt, tt)
insert_sorted-IsSorted n (m ∷ ms) (a, h) = elim (Bool-cases (leb n m)) [
  | inl le ↦ ground (arith, le, All-le n m ms, a, h)
  | inr gt ↦ ground (arith, gt, All-insert_sorted m n ms, insert_sorted-IsSorted n ms h, a)
]

sort-IsSorted : (ns : List ℕ) → IsSorted (sort ns)
unfolding sort IsSorted
sort-IsSorted [] = tt
sort-IsSorted (n ∷ ns) = insert_sorted-IsSorted n (sort ns) (sort-IsSorted ns)

reached-insert_sorted :
    (y n : ℕ) (ms : List ℕ) → reached y (insert_sorted n ms) ≡ reached y (n ∷ ms)
unfolding insert_sorted
reached-insert_sorted y n [] = refl
reached-insert_sorted y n (m ∷ ms) = ground (arith, reached-insert_sorted y n ms)

reached-sort : (y : ℕ) (ns : List ℕ) → reached y (sort ns) ≡ reached y ns
unfolding sort
reached-sort y [] = refl
reached-sort y (n ∷ ns) = ground (arith, reached-insert_sorted y n (sort ns), reached-sort y ns)

length-insert_sorted : (n : ℕ) (ms : List ℕ) → length (insert_sorted n ms) ≡ 1 + length ms
unfolding insert_sorted
length-insert_sorted n [] = refl
length-insert_sorted n (m ∷ ms) = ground (arith, length-insert_sorted n ms)

length-sort : (ns : List ℕ) → length (sort ns) ≡ length ns
unfolding sort
length-sort [] = refl
length-sort (n ∷ ns) = ground (arith, length-insert_sorted n (sort ns), length-sort ns)

All-get_elem? : (b i x : ℕ) (ms : List ℕ) → All (λ m. b ≤ m) ms → get_elem? ms i ≡ some x → b ≤ x
All-get_elem? b i x [] a e = ground arith
All-get_elem? b zero x (m ∷ ms) (a, rest) e = ground arith
All-get_elem? b (suc i) x (m ∷ ms) (a, rest) e = All-get_elem? b i x ms rest e

reached-All : (b : ℕ) (ms : List ℕ) → All (λ m. b ≤ m) ms → reached b ms ≡ length ms
reached-All b [] a = refl
reached-All b (m ∷ ms) (a, rest) = ground (arith, reached-All b ms rest)

reached-le : (y : ℕ) (ms : List ℕ) → reached y ms ≤ length ms
reached-le y [] = omega arith
reached-le y (m ∷ ms) = ground (arith, reached-le y ms)

-- Behind its index, a number of a sorted list is reached by all.
reached-index :
    (i x : ℕ) (ms : List ℕ) → IsSorted ms → get_elem? ms i ≡ some x → length ms ≤ reached x ms + i
unfolding IsSorted
reached-index i x [] h e = omega arith
reached-index zero x (m ∷ ms) (a, h) e = ground (arith, reached-All m ms a)
reached-index (suc i) x (m ∷ ms) (a, h) e = ground (arith, reached-index i x ms h e)

-- Up to its index, none reaches a larger number.
reached-above :
    (i x y : ℕ) (ms : List ℕ)
    → IsSorted ms
    → get_elem? ms i ≡ some x
    → x < y
    → reached y ms + i + 1 ≤ length ms
unfolding IsSorted
reached-above i x y [] h e k = ground arith
reached-above zero x y (m ∷ ms) (a, h) e k = ground (arith, reached-le y ms)
reached-above (suc i) x y (m ∷ ms) (a, h) e k =
    ground (arith, reached-above i x y ms h e k, All-get_elem? m i x ms a e)

get_elem?-some : (i : ℕ) (ms : List ℕ) → i < length ms → (x : ℕ) × (get_elem? ms i ≡ some x)
get_elem?-some i [] h = absurd (omega (arith, h))
get_elem?-some zero (m ∷ ms) h = (m, refl)
get_elem?-some (suc i) (m ∷ ms) h = get_elem?-some i ms (omega (arith, h))

pub quorum_lsn-reached :
    (q x : ℕ) (ns : List ℕ) → 1 ≤ q → quorum_lsn q ns ≡ some x → q ≤ reached x ns
unfolding quorum_lsn
quorum_lsn-reached q x ns h e = ground (
  arith,
  reached-index (length ns - q) x (sort ns) (sort-IsSorted ns),
  length-sort ns,
  reached-sort x ns,
)

pub quorum_lsn_largest :
    (q x y : ℕ) (ns : List ℕ) → 1 ≤ q → quorum_lsn q ns ≡ some x → q ≤ reached y ns → y ≤ x
unfolding quorum_lsn
quorum_lsn_largest q x y ns h e k = ground (
  arith,
  reached-above (length ns - q) x y (sort ns) (sort-IsSorted ns),
  length-sort ns,
  reached-sort y ns,
)

pub quorum_lsn-none : (q y : ℕ) (ns : List ℕ) → 1 ≤ q → quorum_lsn q ns ≡ none → reached y ns < q
unfolding quorum_lsn
quorum_lsn-none q y ns h e = elim (Bool-cases (leb q (length ns))) [
  | inr few ↦ ground (arith, few, reached-le y ns)
  | inl enough ↦
      let (x, found) =
        get_elem?-some (length ns - q) (sort ns)
          (rw (length-sort ns) (ground (arith, enough, h))) in
      ground (arith, enough, found)
]
