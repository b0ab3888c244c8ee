-- ===== src/Base/Maps.antt =====
-- A map as an association list, over keys that a Boolean test tells apart. A key that is there keeps
-- its place, and a new one goes to the end; no theorem of the library speaks of that order.
use mathlib.Core.Path.{◌≡◌, refl}
use mathlib.Core.Logic.{◌↔◌}
use mathlib.Core.Bool.{Bool, true}
use mathlib.Core.Option.{Option, none, some}
use mathlib.Core.List.{List, [], ◌∷◌}
use native.Mathlib.Omega.{arith}
use wolf_scale.Base.Booleans.{if◌then◌else◌}

pub record Eq {ℓ} (K : Type ℓ) : Type ℓ where
  pub beq : K → K → Bool
  pub beq_iff : (a b : K) → (beq a b ≡ true) ↔ (a ≡ b)

module _ {ℓ κ} {K : Type ℓ} {V : Type κ} ⦃e : Eq K⦄ where
  unfoldable pub find : K → List (K × V) → Option V
  find k [] = none
  find k ((j, v) ∷ m) = if e.beq j k then some v else find k m

  unfoldable pub set : K → V → List (K × V) → List (K × V)
  set k v [] = (k, v) ∷ []
  set k v ((j, w) ∷ m) = if e.beq j k then (j, v) ∷ m else (j, w) ∷ set k v m

  unfoldable pub unset : K → List (K × V) → List (K × V)
  unset k [] = []
  unset k ((j, w) ∷ m) = let rest = unset k m in if e.beq j k then rest else (j, w) ∷ rest

  pub find-set :
      (k j : K) (v : V) (m : List (K × V))
      → find j (set k v m) ≡ (if e.beq k j then some v else find j m)
  unfolding find set
  find-set k j v [] = refl
  find-set k j v ((i, w) ∷ m) =
      ground (arith, e.beq_iff k j, e.beq_iff i k, e.beq_iff i j, find-set k j v m)

  pub find-unset :
      (k j : K) (m : List (K × V)) → find j (unset k m) ≡ (if e.beq k j then none else find j m)
  unfolding find unset
  find-unset k j [] = ground arith
  find-unset k j ((i, w) ∷ m) =
      ground (arith, e.beq_iff k j, e.beq_iff i k, e.beq_iff i j, find-unset k j m)
