-- ===== src/Base/Text.antt =====
-- Texts compared whole, as Rust compares `str`: byte by byte, which for UTF-8 is code by code.
use Prim.Native.Nat.{ℕ, Ordering, compare as compare_ℕ}
use Prim.Native.Char.{code}
use Prim.Native.String.{String, compare, then as chain, ◌++◌}
use Prim.Native.String.compare
use mathlib.Core.Path.{◌≡◌, refl}
use mathlib.Core.Logic.{◌≢◌, ◌↔◌, ◌⊎◌, inl, inr}
use mathlib.Core.Bool.{Bool, true, false}
use native.Mathlib.Omega.{arith}
use wolf_scale.Base.Booleans.{◌==◌, if◌then◌else◌}
use text.Mathlib.Text.{◌==◌ as text_eq, is_lt}
use text.Mathlib.TextEquality.{eq_iff, path_by_compare}
use text.Mathlib.TextPositions.{eq_refl, compare_refl}
pub use wolf_scale.Base.Booleans.{◌==◌, if◌then◌else◌}

abbrev pub str_eq : String → String → Bool
str_eq s t = text_eq s t

pub str_eq_iff : (s t : String) → (str_eq s t ≡ true) ↔ (s ≡ t)
str_eq_iff s t = eq_iff s t

pub str_eq_refl : (s : String) → str_eq s s ≡ true
str_eq_refl s = eq_refl s

-- `s < t` on `String`.
unfoldable pub str_lt : String → String → Bool
str_lt s t = is_lt (compare s t)

flip : Ordering → Ordering
flip Ordering.lt = Ordering.gt
flip Ordering.eq = Ordering.eq
flip Ordering.gt = Ordering.lt

compare_ℕ_flip : (a b : ℕ) → compare_ℕ b a ≡ flip (compare_ℕ a b)
unfolding flip
compare_ℕ_flip a b = ground arith

flip-then : (o : Ordering) (p : Ordering) → flip (chain o p) ≡ chain (flip o) (flip p)
unfolding flip
flip-then Ordering.lt p = refl
flip-then Ordering.eq p = refl
flip-then Ordering.gt p = refl

compare-flip : (s t : String) → compare t s ≡ flip (compare s t)
unfolding flip
compare-flip String.[] String.[] = refl
compare-flip String.[] (String.◌∷◌ d t) = rw (compare.cons-nil d t, compare.nil-cons d t)
compare-flip (String.◌∷◌ c s) String.[] = rw (compare.nil-cons c s, compare.cons-nil c s)
compare-flip (String.◌∷◌ c s) (String.◌∷◌ d t) = rw (
  compare.cons-cons d c t s,
  compare.cons-cons c d s t,
  compare-flip s t,
  compare_ℕ_flip (code c) (code d),
  flip-then (compare_ℕ (code c) (code d)) (compare s t),
)

is_lt-flip : (o : Ordering) → is_lt o ≡ true → is_lt (flip o) ≡ false
unfolding flip
is_lt-flip o h = ground arith

lt_or_eq_or_gt : (o : Ordering) → (is_lt o ≡ true) ⊎ (o ≡ Ordering.eq) ⊎ (is_lt (flip o) ≡ true)
unfolding flip
lt_or_eq_or_gt Ordering.lt = inl refl
lt_or_eq_or_gt Ordering.eq = inr (inl refl)
lt_or_eq_or_gt Ordering.gt = inr (inr refl)

pub str_lt_asymm : (s t : String) → str_lt s t ≡ true → str_lt t s ≡ false
unfolding str_lt
str_lt_asymm s t h = rw (compare-flip s t) (is_lt-flip (compare s t) h)

pub str_lt_irrefl : (s : String) → str_lt s s ≡ false
unfolding str_lt
str_lt_irrefl s = rw (compare_refl s)

-- Of two different texts one is below the other.
pub str_lt_total : (s t : String) → s ≢ t → (str_lt s t ≡ true) ⊎ (str_lt t s ≡ true)
unfolding str_lt
str_lt_total s t ne = elim (lt_or_eq_or_gt (compare s t)) [
  | inl below ↦ inl below
  | inr (inl same) ↦ absurd (ne (path_by_compare s t same))
  | inr (inr above) ↦ inr (rw (compare-flip s t) above)
]

-- `s.replace(c, with)` for a character `c`, given by its code.
unfoldable pub replace_char : ℕ → String → String → String
replace_char c with String.[] = String.[]
replace_char c with (String.◌∷◌ d s) =
    if code d == c then with ++ replace_char c with s else String.◌∷◌ d (replace_char c with s)
