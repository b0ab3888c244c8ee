-- ===== src/State/Membership/Leader.antt =====
-- `set_leader` and `current_leader` of state/membership.rs.
use wolf_scale.Base.{
  ℕ, String, ◌≡◌, refl, true, none, some, inl, inr, arith, if◌then◌else◌, Distinct, lookup, on_some,
  lookup-adjust, lookup-map_values, adjust-Distinct, map_values, map_values-Distinct, first-values,
  first-values-none, str_eq, str_eq_iff, Option-cases,
}
use wolf_scale.State.Membership.{
  NodeState, ClusterMembership, is_leader, set_leader, current_leader, seat, unseat,
}
use wolf_scale.State.Membership.Valid.{IsValid}

abbrev crown : ℕ → String → String → NodeState → NodeState
crown now id k n = if str_eq id k then seat now (unseat n) else unseat n

lookup-set_leader :
    (now : ℕ) (id k : String) (c : ClusterMembership)
    → lookup k (set_leader now id c).nodes ≡ on_some (crown now id k) (lookup k c.nodes)
unfolding set_leader
lookup-set_leader now id k c = rw (lookup-adjust, lookup-map_values) (ground arith)

came_from :
    (now : ℕ) (id k : String) (c : ClusterMembership) (n' : NodeState)
    → lookup k (set_leader now id c).nodes ≡ some n'
    → (n : NodeState) × (lookup k c.nodes ≡ some n) × (n' ≡ crown now id k n)
came_from now id k c n' e = elim (Option-cases (lookup k c.nodes)) [
  | inl gone ↦ absurd (ground (arith, lookup-set_leader now id k c))
  | inr (n, found) ↦ (n, found, ground (arith, lookup-set_leader now id k c))
]

leads_alone :
    (now : ℕ) (id k : String) (c : ClusterMembership) (n' : NodeState)
    → lookup k (set_leader now id c).nodes ≡ some n'
    → is_leader n'.role ≡ true
    → k ≡ id
leads_alone now id k c n' e h =
    let (n, found, made) = came_from now id k c n' e in ground (arith, made, str_eq_iff id k)

set_leader-Distinct :
    (now : ℕ) (id : String) (c : ClusterMembership)
    → Distinct c.nodes
    → Distinct (set_leader now id c).nodes
unfolding set_leader
set_leader-Distinct now id c d =
    adjust-Distinct id (seat now) (map_values unseat c.nodes) (map_values-Distinct unseat c.nodes d)

set_leader-node_id :
    (now : ℕ) (id : String) (c : ClusterMembership) → (set_leader now id c).node_id ≡ c.node_id
unfolding set_leader
set_leader-node_id now id c = refl

pub set_leader-IsValid :
    (now : ℕ) (id : String) (c : ClusterMembership) → IsValid c → IsValid (set_leader now id c)
set_leader-IsValid now id c v = record {
  distinct = set_leader-Distinct now id c v.distinct;
  keyed = λ k n' e.
      let (n, found, made) = came_from now id k c n' e in ground (arith, made, v.keyed k n);
  present = λ e.
      ground (arith, set_leader-node_id now id c, lookup-set_leader now id c.node_id c, v.present);
  one_leader =
      λ j k n m e f hn hm. cc (leads_alone now id j c n e hn, leads_alone now id k c m f hm);
}

-- In a valid cluster the node that is made leader is the one that `current_leader` finds, active
-- and just heard from, whoever led before.
pub current_leader-set_leader :
    (now : ℕ) (id : String) (c : ClusterMembership) (n : NodeState)
    → IsValid c
    → lookup id c.nodes ≡ some n
    → current_leader (set_leader now id c) ≡ some (seat now n)
unfolding current_leader
current_leader-set_leader now id c n v found =
    first-values (λ m. is_leader m.role) id (seat now n) (set_leader now id c).nodes
      (set_leader-Distinct now id c v.distinct)
      (ground (arith, lookup-set_leader now id id c, str_eq_iff id id)) refl
      (λ k m e h. leads_alone now id k c m e h)

-- To make an unknown node the leader leaves the cluster with none.
pub set_leader_unknown :
    (now : ℕ) (id : String) (c : ClusterMembership)
    → IsValid c
    → lookup id c.nodes ≡ none
    → current_leader (set_leader now id c) ≡ none
unfolding current_leader
set_leader_unknown now id c v unknown =
    first-values-none (λ m. is_leader m.role) (set_leader now id c).nodes
      (set_leader-Distinct now id c v.distinct)
      λ k m e.
        let (n, found, made) = came_from now id k c m e in ground (arith, made, str_eq_iff id k)
