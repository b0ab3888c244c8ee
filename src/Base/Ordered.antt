-- ===== src/Base/Ordered.antt =====
-- `BTreeMap<u64, V>`, and a directory by the numbers in its files' names, as a list in the order of
-- the keys.
use Prim.Native.Nat.{ℕ, ◌<◌, ◌≤◌}
use mathlib.Core.Path.{◌≡◌, refl}
use mathlib.Core.Option.{Option, none, some}
use mathlib.Core.List.{List, [], ◌∷◌}
use native.Mathlib.Omega.{arith}
use wolf_scale.Base.Booleans.{ltb, leb, ◌==◌, if◌then◌else◌}

module _ {ℓ} {V : Type ℓ} where
  unfoldable pub get : ℕ → List (ℕ × V) → Option V
  get k [] = none
  get k ((j, v) ∷ m) = if j == k then some v else get k m

  unfoldable pub put : ℕ → V → List (ℕ × V) → List (ℕ × V)
  put k v [] = (k, v) ∷ []
  put k v ((j, w) ∷ m) =
      if ltb k j then (k, v) ∷ (j, w) ∷ m else if j == k then (k, v) ∷ m else (j, w) ∷ put k v m

  unfoldable pub take_out : ℕ → List (ℕ × V) → List (ℕ × V)
  take_out k [] = []
  take_out k ((j, w) ∷ m) = let rest = take_out k m in if j == k then rest else (j, w) ∷ rest

  -- `m.range(k..)`
  unfoldable pub range_from : ℕ → List (ℕ × V) → List (ℕ × V)
  range_from k [] = []
  range_from k ((j, v) ∷ m) = if ltb j k then range_from k m else (j, v) ∷ m

  -- `m.range(..=k).next_back()`, from the last key at most `k` so far on
  unfoldable pub last_up_to : ℕ → Option (ℕ × V) → List (ℕ × V) → Option (ℕ × V)
  last_up_to k best [] = best
  last_up_to k best ((j, v) ∷ m) = if leb j k then last_up_to k (some (j, v)) m else best

  -- Every key of the list is above a bound, and the list goes up.
  abbrev pub Above : ℕ → List (ℕ × V) → Type 0
  Above k [] = Unit {0}
  Above k ((j, v) ∷ m) = (k < j) × Above j m

  abbrev pub Sorted : List (ℕ × V) → Type 0
  Sorted [] = Unit {0}
  Sorted ((j, v) ∷ m) = Above j m

  pub Above-weaken : (i k : ℕ) (m : List (ℕ × V)) → i ≤ k → Above k m → Above i m
  Above-weaken i k [] h a = tt
  Above-weaken i k ((j, v) ∷ m) h a = (omega (arith, h, a.0), a.1)

  pub get-put :
      (k i : ℕ) (v : V) (m : List (ℕ × V))
      → get i (put k v m) ≡ (if k == i then some v else get i m)
  unfolding get put
  get-put k i v [] = refl
  get-put k i v ((j, w) ∷ m) = ground (arith, get-put k i v m)

  pub get-take_out :
      (k i : ℕ) (m : List (ℕ × V)) → get i (take_out k m) ≡ (if k == i then none else get i m)
  unfolding get take_out
  get-take_out k i [] = ground arith
  get-take_out k i ((j, w) ∷ m) = ground (arith, get-take_out k i m)

  pub put-Above : (b k : ℕ) (v : V) (m : List (ℕ × V)) → b < k → Above b m → Above b (put k v m)
  unfolding put
  put-Above b k v [] h a = (h, tt)
  put-Above b k v ((j, w) ∷ m) h a =
      ground (arith, h, a.0, a.1, put-Above j k v m, Above-weaken j k m)

  -- Putting keeps the order of the keys.
  pub put-Sorted : (k : ℕ) (v : V) (m : List (ℕ × V)) → Sorted m → Sorted (put k v m)
  unfolding put
  put-Sorted k v [] s = tt
  put-Sorted k v ((j, w) ∷ m) s = ground (arith, s, put-Above j k v m, Above-weaken j k m)
