-- ===== src/Wolfdisk/Chunks/Encoding.antt =====
-- A hash that tells all contents apart, and the empty store, for runs of wolfdisk/src/storage/chunks.rs.
use wolf_scale.Base.{
  ℕ, zero, suc, ◌+◌, ◌*◌, ◌≡◌, refl, ap, ◌∙◌, none, some, List, [], ◌∷◌, arith, get,
}
use wolf_scale.Wolfdisk.Chunks.{new}
use wolf_scale.Wolfdisk.Chunks.Store.{Coherent, Addressed}

abbrev pair : ℕ → ℕ → ℕ
pair zero n = 2 * n + 1
pair (suc x) n = 2 * pair x n

abbrev pub encoded : List ℕ → ℕ
encoded [] = 0
encoded (x ∷ xs) = pair x (encoded xs)

pair_positive : (x n : ℕ) → (m : ℕ) × (pair x n ≡ suc m)
pair_positive zero n = (2 * n, omega arith)
pair_positive (suc x) n = let (m, h) = pair_positive x n in (2 * m + 1, omega (arith, h))

pair_same : (x y m n : ℕ) → pair x m ≡ pair y n → (x ≡ y) × (m ≡ n)
pair_same zero zero m n h = (refl, omega (arith, h))
pair_same zero (suc y) m n h = absurd (omega (arith, h))
pair_same (suc x) zero m n h = absurd (omega (arith, h))
pair_same (suc x) (suc y) m n h =
    let (same, rest) = pair_same x y m n (omega (arith, h)) in (ap suc same, rest)

pub encoded_same : (xs ys : List ℕ) → encoded xs ≡ encoded ys → xs ≡ ys
encoded_same [] [] h = refl
encoded_same [] (y ∷ ys) h =
    let (m, e) = pair_positive y (encoded ys) in absurd (omega (arith, h, e))
encoded_same (x ∷ xs) [] h =
    let (m, e) = pair_positive x (encoded xs) in absurd (omega (arith, h, e))
encoded_same (x ∷ xs) (y ∷ ys) h =
    let (same, rest) = pair_same x y (encoded xs) (encoded ys) h in
    ap (λ z. z ∷ xs) same ∙ ap (λ zs. y ∷ zs) (encoded_same xs ys rest)

none-some : {A : Type 0} {a : A} → none ≡ some a → ⊥
none-some h = cc

pub empty-Coherent : Coherent (new 2)
unfolding new get
empty-Coherent h d e = absurd (none-some e)

pub empty-Addressed : Addressed encoded (new 2)
unfolding new get
empty-Addressed h d e = absurd (none-some e)
