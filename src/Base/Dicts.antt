-- ===== src/Base/Dicts.antt =====
-- `HashMap<String, V>` as an association list. A key that is there keeps its place, and a new one
-- goes to the end; no theorem of the library speaks of that order.
use Prim.Native.String.{String}
use mathlib.Core.Path.{◌≡◌, refl}
use mathlib.Core.Bool.{Bool, true, false}
use mathlib.Core.Option.{Option, none, some}
use mathlib.Core.List.{List, [], ◌∷◌}
use native.Mathlib.Omega.{arith}
use wolf_scale.Base.Booleans.{if◌then◌else◌, Bool-cases}
use mathlib.Core.Logic.{inl, inr}
use wolf_scale.Base.Lists.{any, first}
use wolf_scale.Base.Text.{str_eq, str_eq_iff}

abbrev pub Dict {ℓ} : Type ℓ → Type ℓ
Dict V = List (String × V)

module _ {ℓ} {V : Type ℓ} where
  unfoldable pub lookup : String → Dict V → Option V
  lookup k [] = none
  lookup k ((j, v) ∷ m) = if str_eq j k then some v else lookup k m

  unfoldable pub insert : String → V → Dict V → Dict V
  insert k v [] = (k, v) ∷ []
  insert k v ((j, w) ∷ m) = if str_eq j k then (j, v) ∷ m else (j, w) ∷ insert k v m

  unfoldable pub remove : String → Dict V → Dict V
  remove k [] = []
  remove k ((j, w) ∷ m) = let rest = remove k m in if str_eq j k then rest else (j, w) ∷ rest

  -- `if let Some(v) = m.get_mut(k) { f(v) }`
  unfoldable pub adjust : String → (V → V) → Dict V → Dict V
  adjust k f [] = []
  adjust k f ((j, w) ∷ m) = if str_eq j k then (j, f w) ∷ m else (j, w) ∷ adjust k f m

  -- `for v in m.values_mut() { f(v) }`
  unfoldable pub map_values : (V → V) → Dict V → Dict V
  map_values f [] = []
  map_values f ((j, w) ∷ m) = (j, f w) ∷ map_values f m

  unfoldable pub remove_all : List String → Dict V → Dict V
  remove_all [] m = m
  remove_all (k ∷ ks) m = remove_all ks (remove k m)

  abbrev pub contains_key : String → Dict V → Bool
  contains_key k m = elim (lookup k m) [ none ↦ false | some v ↦ true ]

  -- Each key once.
  abbrev pub Distinct : Dict V → Type ℓ
  Distinct [] = Unit {ℓ}
  Distinct ((k, v) ∷ m) = (lookup k m ≡ none) × Distinct m

  abbrev pub values : Dict V → List V
  values [] = []
  values ((j, v) ∷ m) = v ∷ values m

  abbrev pub on_some : (V → V) → Option V → Option V
  on_some f none = none
  on_some f (some v) = some (f v)

  pub lookup-insert :
      (k j : String) (v : V) (m : Dict V)
      → lookup j (insert k v m) ≡ (if str_eq k j then some v else lookup j m)
  unfolding lookup insert
  lookup-insert k j v [] = refl
  lookup-insert k j v ((i, w) ∷ m) =
      ground (arith, str_eq_iff k j, str_eq_iff i k, str_eq_iff i j, lookup-insert k j v m)

  pub lookup-remove :
      (k j : String) (m : Dict V)
      → lookup j (remove k m) ≡ (if str_eq k j then none else lookup j m)
  unfolding lookup remove
  lookup-remove k j [] = ground arith
  lookup-remove k j ((i, w) ∷ m) =
      ground (arith, str_eq_iff k j, str_eq_iff i k, str_eq_iff i j, lookup-remove k j m)

  pub lookup-adjust :
      (k j : String) (f : V → V) (m : Dict V)
      → lookup j (adjust k f m) ≡ (if str_eq k j then on_some f (lookup j m) else lookup j m)
  unfolding lookup adjust
  lookup-adjust k j f [] = ground arith
  lookup-adjust k j f ((i, w) ∷ m) =
      ground (arith, str_eq_iff k j, str_eq_iff i k, str_eq_iff i j, lookup-adjust k j f m)

  pub lookup-map_values :
      (j : String) (f : V → V) (m : Dict V) → lookup j (map_values f m) ≡ on_some f (lookup j m)
  unfolding lookup map_values
  lookup-map_values j f [] = refl
  lookup-map_values j f ((i, w) ∷ m) = ground (arith, lookup-map_values j f m)

  pub lookup-remove_all :
      (ks : List String) (j : String) (m : Dict V)
      → lookup j (remove_all ks m) ≡ (if any (λ k. str_eq k j) ks then none else lookup j m)
  unfolding remove_all
  lookup-remove_all [] j m = refl
  lookup-remove_all (k ∷ ks) j m =
      ground (arith, lookup-remove_all ks j (remove k m), lookup-remove k j m)

  pub insert-Distinct : (k : String) (v : V) (m : Dict V) → Distinct m → Distinct (insert k v m)
  unfolding insert lookup
  insert-Distinct k v [] d = (refl, tt)
  insert-Distinct k v ((i, w) ∷ m) d =
      ground
        (arith, insert-Distinct k v m d.1, lookup-insert k i v m, str_eq_iff i k, str_eq_iff k i)

  pub remove-Distinct : (k : String) (m : Dict V) → Distinct m → Distinct (remove k m)
  unfolding remove
  remove-Distinct k [] d = tt
  remove-Distinct k ((i, w) ∷ m) d = ground (arith, remove-Distinct k m d.1, lookup-remove k i m)

  pub adjust-Distinct : (k : String) (f : V → V) (m : Dict V) → Distinct m → Distinct (adjust k f m)
  unfolding adjust
  adjust-Distinct k f [] d = tt
  adjust-Distinct k f ((i, w) ∷ m) d =
      ground (arith, adjust-Distinct k f m d.1, lookup-adjust k i f m)

  pub map_values-Distinct : (f : V → V) (m : Dict V) → Distinct m → Distinct (map_values f m)
  unfolding map_values
  map_values-Distinct f [] d = tt
  map_values-Distinct f ((i, w) ∷ m) d =
      ground (arith, map_values-Distinct f m d.1, lookup-map_values i f m)

  pub remove_all-Distinct :
      (ks : List String) (m : Dict V) → Distinct m → Distinct (remove_all ks m)
  unfolding remove_all
  remove_all-Distinct [] m d = d
  remove_all-Distinct (k ∷ ks) m d = remove_all-Distinct ks (remove k m) (remove-Distinct k m d)

  lookup_tail :
      (i j : String) (w v : V) (m : Dict V)
      → lookup i m ≡ none
      → lookup j m ≡ some v
      → lookup j ((i, w) ∷ m) ≡ some v
  unfolding lookup
  lookup_tail i j w v m fresh found = ground (arith, str_eq_iff i j)

  lookup_head : (i : String) (w : V) (m : Dict V) → lookup i ((i, w) ∷ m) ≡ some w
  unfolding lookup
  lookup_head i w m = ground (arith, str_eq_iff i i)

  -- Where one entry alone passes the test, the search through the values finds it.
  pub first-values :
      (p : V → Bool) (k : String) (v : V) (m : Dict V)
      → Distinct m
      → lookup k m ≡ some v
      → p v ≡ true
      → ((j : String) (w : V) → lookup j m ≡ some w → p w ≡ true → j ≡ k)
      → first p (values m) ≡ some v
  unfolding lookup
  first-values p k v [] d found good only = cc
  first-values p k v ((i, w) ∷ m) d found good only = elim (Bool-cases (p w)) [
    | inl hit ↦
        let same = only i w (lookup_head i w m) hit in ground (arith, hit, same, str_eq_iff i k)
    | inr miss ↦ rw miss (
        first-values p k v m d.1 (ground (arith, str_eq_iff i k)) good
          (λ j u e h. only j u (lookup_tail i j w u m d.0 e) h))
  ]

  pub first-values-none :
      (p : V → Bool) (m : Dict V)
      → Distinct m
      → ((j : String) (w : V) → lookup j m ≡ some w → p w ≡ false)
      → first p (values m) ≡ none
  first-values-none p [] d all = refl
  first-values-none p ((i, w) ∷ m) d all =
      rw (all i w (lookup_head i w m))
        (first-values-none p m d.1 (λ j u e. all j u (lookup_tail i j w u m d.0 e)))
