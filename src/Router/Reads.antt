-- ===== src/Router/Reads.antt =====
-- Which nodes lb.rs sends reads to.
use wolf_scale.Base.{
  ℕ, zero, suc, ◌+◌, ◌%◌, ◌≤◌, ◌<◌, ◌≡◌, refl, ap, sym, ◌∙◌, Bool, true, false, some, List, [], ◌∷◌,
  arith, ◌⊎◌, inl, inr, length, get_elem?, keep, Member, Bool-cases,
}
use mathlib.Core.Path.{subst}
use wolf_scale.State.Membership.{NodeState, is_active, all_nodes, current_leader}
use wolf_scale.Router.{
  LoadBalancerRouter, get_leader, is_load_balancer, lsn_of, is_readable, healthy_read_nodes, pick,
  get_read_node,
}

-- A node that a read may go to: active, no load balancer, and not too far behind the leader.
pub record Serves (r : LoadBalancerRouter) (n : NodeState) : Type 0 where
  pub known : Member n (all_nodes r.cluster)
  pub active : is_active n.status ≡ true
  pub no_balancer : is_load_balancer n.role ≡ false
  pub fresh : lsn_of (current_leader r.cluster) ≤ n.last_applied_lsn + r.max_acceptable_lag

some-injective : {A : Type 0} {a b : A} → some a ≡ some b → a ≡ b
some-injective h = cc

Member-keep :
    (p : NodeState → Bool) (n : NodeState) (ns : List NodeState)
    → Member n (keep p ns)
    → Member n ns × (p n ≡ true)
Member-keep p n [] m = absurd m
Member-keep p n (x ∷ ns) m = elim (Bool-cases (p x)) [
  | inr out ↦ let (there, passes) = Member-keep p n ns (simp out at m) in (inr there, passes)
  | inl kept ↦ elim (simp kept at m) [
    | inl same ↦ (inl same, ap p (sym same) ∙ kept)
    | inr later ↦ let (there, passes) = Member-keep p n ns later in (inr there, passes)
  ]
]

Member-Serves :
    (r : LoadBalancerRouter) (n : NodeState) → Member n (healthy_read_nodes r) → Serves r n
unfolding healthy_read_nodes is_readable
Member-Serves r n m =
    let (there, passes) =
      Member-keep (is_readable r.max_acceptable_lag (lsn_of (current_leader r.cluster))) n
        (all_nodes r.cluster) m in
    record {
      known = there;
      active = ground (arith, passes);
      no_balancer = ground (arith, passes);
      fresh = ground (arith, passes);
    }

Member-keep-back :
    (p : NodeState → Bool) (n : NodeState) (ns : List NodeState)
    → Member n ns
    → p n ≡ true
    → Member n (keep p ns)
Member-keep-back p n [] m h = absurd m
Member-keep-back p n (x ∷ ns) (inl same) h = simp (ap p same ∙ h) (inl same)
Member-keep-back p n (x ∷ ns) (inr m) h = elim (Bool-cases (p x)) [
  | inl kept ↦ simp kept (inr (Member-keep-back p n ns m h))
  | inr out ↦ simp out (Member-keep-back p n ns m h)
]

-- A node that serves is among the healthy ones.
Serves-Member :
    (r : LoadBalancerRouter) (n : NodeState) → Serves r n → Member n (healthy_read_nodes r)
unfolding healthy_read_nodes is_readable
Serves-Member r n s =
    Member-keep-back (is_readable r.max_acceptable_lag (lsn_of (current_leader r.cluster))) n
      (all_nodes r.cluster) s.known (ground (arith, s.active, s.no_balancer, s.fresh))

none-Serves :
    (r : LoadBalancerRouter) → healthy_read_nodes r ≡ [] → (n : NodeState) → Serves r n → ⊥
none-Serves r h n s = subst (λ ns. Member n ns) h (Serves-Member r n s)

get_elem?-Member :
    (ns : List NodeState) (i : ℕ) (n : NodeState) → get_elem? ns i ≡ some n → Member n ns
get_elem?-Member [] i n h = cc
get_elem?-Member (x ∷ ns) zero n h = inl (some-injective h)
get_elem?-Member (x ∷ ns) (suc i) n h = inr (get_elem?-Member ns i n h)

get_elem?-some :
    (ns : List NodeState) (i : ℕ) → i < length ns → (n : NodeState) × (get_elem? ns i ≡ some n)
get_elem?-some [] i h = absurd (omega (arith, h))
get_elem?-some (x ∷ ns) zero h = (x, refl)
get_elem?-some (x ∷ ns) (suc i) h = get_elem?-some ns i (omega (arith, h))

pick_cases :
    (r : LoadBalancerRouter) (ns : List NodeState)
    → (((pick ns r).0 ≡ get_leader r) × (ns ≡ []))
      ⊎ ((n : NodeState) × ((pick ns r).0 ≡ some n) × Member n ns)
pick_cases r [] = inl (refl, refl)
pick_cases r (x ∷ ns) =
    let i = r.read_counter % length (x ∷ ns) in
    let (n, there) = get_elem?-some (x ∷ ns) i (omega arith) in
    inr (n, there, get_elem?-Member (x ∷ ns) i n there)

-- A read goes to a known node that is active, no load balancer and within the allowed lag; where
-- no known node is all that, it goes to the leader.
pub get_read_node-Serves :
    (r : LoadBalancerRouter)
    → (((get_read_node r).0 ≡ get_leader r) × ((n : NodeState) → Serves r n → ⊥))
      ⊎ ((n : NodeState) × ((get_read_node r).0 ≡ some n) × Serves r n)
unfolding get_read_node
get_read_node-Serves r = elim (pick_cases r (healthy_read_nodes r)) [
  | inl (leader, nobody) ↦ inl (leader, none-Serves r nobody)
  | inr (n, there, m) ↦ inr (n, there, Member-Serves r n m)
]
