-- ===== src/Wolfdisk/Cluster/Changes.antt =====
-- The log of changes of wolfdisk/src/cluster/state.rs.
use wolf_scale.Base.{
  ℕ, ◌≡◌, refl, ap, sym, ◌∙◌, String, Bool, true, false, Option, none, some, List, [], ◌∷◌, arith,
  inl, inr, if◌then◌else◌, Bool-cases, Member, ltb, Dict, lookup, insert, Distinct, lookup-insert,
  insert-Distinct, str_eq, str_eq_iff, ◌↔◌,
}
use mathlib.Core.Path.{subst}
use wolf_scale.Wolfdisk.Cluster.{
  Change, ClusterManager, latest_ops, changed_paths, deleted_paths, is_truncated, changes_since,
}

true-false : some true ≡ some false → ⊥
true-false h = cc

false-true : some false ≡ some true → ⊥
false-true h = cc

some-injective : {A : Type 0} {a b : A} → some a ≡ some b → a ≡ b
some-injective h = cc

-- The last operation on a path after a version
unfoldable pub last_op : ℕ → String → List Change → Option Bool → Option Bool
last_op from path [] before = before
last_op from path (c ∷ cs) before = last_op from path cs (
    if ltb from c.version then if str_eq c.path path then some c.is_deleted else before else before)

lookup-latest_ops :
    (from : ℕ) (path : String) (log : List Change) (ops : Dict Bool)
    → lookup path (latest_ops from log ops) ≡ last_op from path log (lookup path ops)
unfolding latest_ops last_op
lookup-latest_ops from path [] ops = refl
lookup-latest_ops from path (c ∷ cs) ops = elim (Bool-cases (ltb from c.version)) [
  | inl newer ↦ simp newer (
      lookup-latest_ops from path cs (insert c.path c.is_deleted ops)
      ∙ ap (last_op from path cs) (lookup-insert c.path path c.is_deleted ops))
  | inr older ↦ simp older (lookup-latest_ops from path cs ops)
]

latest_ops-Distinct :
    (from : ℕ) (log : List Change) (ops : Dict Bool)
    → Distinct ops
    → Distinct (latest_ops from log ops)
unfolding latest_ops
latest_ops-Distinct from [] ops d = d
latest_ops-Distinct from (c ∷ cs) ops d = elim (Bool-cases (ltb from c.version)) [
  | inl newer ↦ simp newer (
      latest_ops-Distinct from cs (insert c.path c.is_deleted ops)
        (insert-Distinct c.path c.is_deleted ops d))
  | inr older ↦ simp older (latest_ops-Distinct from cs ops d)
]

lookup_head : (p : String) (z : Bool) (ops : Dict Bool) → lookup p ((p, z) ∷ ops) ≡ some z
unfolding lookup
lookup_head p z ops = ground (arith, str_eq_iff p p)

lookup_tail :
    (i p : String) (y z : Bool) (ops : Dict Bool)
    → lookup i ops ≡ none
    → lookup p ops ≡ some z
    → lookup p ((i, y) ∷ ops) ≡ some z
unfolding lookup
lookup_tail i p y z ops fresh found = ground (arith, str_eq_iff i p)

changed-lookup :
    (p : String) (ops : Dict Bool)
    → Distinct ops
    → Member p (changed_paths ops)
    → lookup p ops ≡ some false
changed-lookup p [] d m = absurd m
changed-lookup p ((i, true) ∷ ops) d m =
    lookup_tail i p true false ops d.0 (changed-lookup p ops d.1 m)
changed-lookup p ((i, false) ∷ ops) d (inl same) =
    ap (λ k. lookup k ((i, false) ∷ ops)) (sym same) ∙ lookup_head i false ops
changed-lookup p ((i, false) ∷ ops) d (inr m) =
    lookup_tail i p false false ops d.0 (changed-lookup p ops d.1 m)

deleted-lookup :
    (p : String) (ops : Dict Bool)
    → Distinct ops
    → Member p (deleted_paths ops)
    → lookup p ops ≡ some true
deleted-lookup p [] d m = absurd m
deleted-lookup p ((i, false) ∷ ops) d m =
    lookup_tail i p false true ops d.0 (deleted-lookup p ops d.1 m)
deleted-lookup p ((i, true) ∷ ops) d (inl same) =
    ap (λ k. lookup k ((i, true) ∷ ops)) (sym same) ∙ lookup_head i true ops
deleted-lookup p ((i, true) ∷ ops) d (inr m) =
    lookup_tail i p true true ops d.0 (deleted-lookup p ops d.1 m)

none-some : {A : Type 0} {a : A} → none ≡ some a → ⊥
none-some h = cc

lookup-changed :
    (p : String) (ops : Dict Bool) → lookup p ops ≡ some false → Member p (changed_paths ops)
unfolding lookup
lookup-changed p [] h = absurd (none-some h)
lookup-changed p ((i, true) ∷ ops) h = elim (Bool-cases (str_eq i p)) [
  | inl hit ↦ absurd (true-false (simp hit at h))
  | inr miss ↦ lookup-changed p ops (simp miss at h)
]
lookup-changed p ((i, false) ∷ ops) h = elim (Bool-cases (str_eq i p)) [
  | inl hit ↦ inl (ground (arith, hit, str_eq_iff i p))
  | inr miss ↦ inr (lookup-changed p ops (simp miss at h))
]

lookup-deleted :
    (p : String) (ops : Dict Bool) → lookup p ops ≡ some true → Member p (deleted_paths ops)
unfolding lookup
lookup-deleted p [] h = absurd (none-some h)
lookup-deleted p ((i, false) ∷ ops) h = elim (Bool-cases (str_eq i p)) [
  | inl hit ↦ absurd (false-true (simp hit at h))
  | inr miss ↦ lookup-deleted p ops (simp miss at h)
]
lookup-deleted p ((i, true) ∷ ops) h = elim (Bool-cases (str_eq i p)) [
  | inl hit ↦ inl (ground (arith, hit, str_eq_iff i p))
  | inr miss ↦ inr (lookup-deleted p ops (simp miss at h))
]

-- The two lists of a delta
pub record IsDelta (from : ℕ) (log : List Change) (delta : List String × List String) (p : String)
    : Type 0 where
  pub changed : Member p delta.0 ↔ (last_op from p log none ≡ some false)
  pub deleted : Member p delta.1 ↔ (last_op from p log none ≡ some true)

ops-IsDelta :
    (from : ℕ) (log : List Change) (p : String)
    → IsDelta from log
        (changed_paths (latest_ops from log []), deleted_paths (latest_ops from log []))
        p
ops-IsDelta from log p =
    let ops = latest_ops from log [] in
    let once : Distinct ops = latest_ops-Distinct from log [] tt in
    let same : lookup p ops ≡ last_op from p log none = lookup-latest_ops from p log [] ∙ nothing in
    record {
      changed = (λ m. sym same ∙ changed-lookup p ops once m, λ h. lookup-changed p ops (same ∙ h));
      deleted = (λ m. sym same ∙ deleted-lookup p ops once m, λ h. lookup-deleted p ops (same ∙ h));
    }
  where
    nothing : last_op from p log (lookup p []) ≡ last_op from p log none
    nothing = ap (last_op from p log) (unfold lookup in refl)

-- A delta, where one is given, has among its changes just the paths whose last operation after the
-- version was no deletion, and among its deletions just those whose last operation was one.
pub changes_since-IsDelta :
    (from : ℕ) (m : ClusterManager) (delta : List String × List String) (p : String)
    → changes_since from m ≡ some delta
    → IsDelta from m.changelog delta p
unfolding changes_since
changes_since-IsDelta from m delta p h = elim (Bool-cases (is_truncated from m.changelog)) [
  | inl gone ↦ absurd (none-some (simp gone at h))
  | inr there ↦
      let same = some-injective (simp there at h) in
      subst (λ d. IsDelta from m.changelog d p) same (ops-IsDelta from m.changelog p)
]
