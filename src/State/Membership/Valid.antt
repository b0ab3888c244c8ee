-- ===== src/State/Membership/Valid.antt =====
-- The invariant of state/membership.rs: one entry a key, keyed by its node's id, this node among
-- them, one leader at most. Every operation that changes the map is shown to keep it.
use wolf_scale.Base.{
  Bool-cases, inl, inr, ap, sym, ◌∙◌, ℕ, String, ◌≡◌, ◌≢◌, refl, Bool, true, false, Option, none,
  some, [], ◌∷◌, inl, inr, arith, ◌||◌, if◌then◌else◌, any, Dict, Distinct, lookup, remove,
  remove_all, insert, lookup-insert, lookup-remove, lookup-remove_all, lookup-adjust,
  lookup-map_values, insert-Distinct, remove-Distinct, adjust-Distinct, map_values-Distinct,
  remove_all-Distinct, str_eq, str_eq_iff, Option-cases, replace_char,
}
use wolf_scale.State.Membership.{
  update_node, NodeState, ClusterMembership, is_leader, is_synthetic, new, new_node, add_peer,
  remove_peer, record_heartbeat, mark_rejoined, update_replication_lag, synthetic_id, same_address,
  heard, touch, syncing, lag_behind,
}
use text.Mathlib.TextPositions.{starts_with-append}

pub record IsValid (c : ClusterMembership) : Type 0 where
  pub distinct : Distinct c.nodes
  pub keyed : (k : String) (n : NodeState) → lookup k c.nodes ≡ some n → n.id ≡ k
  pub present : lookup c.node_id c.nodes ≢ none
  pub one_leader :
      (j k : String) (n m : NodeState)
      → lookup j c.nodes ≡ some n
      → lookup k c.nodes ≡ some m
      → is_leader n.role ≡ true
      → is_leader m.role ≡ true
      → j ≡ k

-- An operation that treats each entry by itself, keeps its id and makes no leader.
abbrev pub Tame : (String → NodeState → Option NodeState) → Type 0
Tame g =
    (k : String) (n m : NodeState)
    → g k n ≡ some m
    → (m.id ≡ n.id) × (is_leader m.role ≡ true → is_leader n.role ≡ true)

abbrev pub through {ℓ} : {V : Type ℓ} → Option V → (V → Option V) → Option V
through none f = none
through (some v) f = f v

abbrev pub Views :
    (String → NodeState → Option NodeState) → Dict NodeState → Dict NodeState → Type 0
Views g m m' = (k : String) → lookup k m' ≡ through (lookup k m) (g k)

module _ (g : String → NodeState → Option NodeState) (tame : Tame g) (m m' : Dict NodeState)
    (view : Views g m m') where
  pub came_from :
      (k : String) (n' : NodeState)
      → lookup k m' ≡ some n'
      → (n : NodeState) × (lookup k m ≡ some n) × (g k n ≡ some n')
  came_from k n' e = elim (Option-cases (lookup k m)) [
    | inl gone ↦ absurd (ground (arith, view k))
    | inr (n, found) ↦ (n, found, ground (arith, view k))
  ]

-- A tame operation that keeps this node keeps the invariant.
pub Tame-IsValid :
    (g : String → NodeState → Option NodeState)
    → Tame g
    → (c c' : ClusterMembership) → Views g c.nodes c'.nodes
    → Distinct c'.nodes
    → lookup c'.node_id c'.nodes ≢ none
    → IsValid c
    → IsValid c'
Tame-IsValid g tame c c' view d p v = record {
  distinct = d;
  keyed = λ k n' e.
      let (n, found, made) = came_from g tame c.nodes c'.nodes view k n' e in
      cc ((tame k n n' made).0, v.keyed k n found);
  present = p;
  one_leader = λ j k n' m' e f hn hm.
      let (n, n_found, n_made) = came_from g tame c.nodes c'.nodes view j n' e in
      let (m, m_found, m_made) = came_from g tame c.nodes c'.nodes view k m' f in
      v.one_leader j k n m n_found m_found ((tame j n n' n_made).1 hn) ((tame k m m' m_made).1 hm);
}

pub new-IsValid : (now : ℕ) (id address : String) (hb el : ℕ) → IsValid (new now id address hb el)
unfolding new lookup
new-IsValid now id address hb el = record {
  distinct = (refl, tt);
  keyed = λ k n e. ground (arith, str_eq_iff id k);
  present = ground (arith, str_eq_iff id id);
  one_leader = λ j k n m e f hn hm. ground (arith, str_eq_iff id j, str_eq_iff id k);
}

pub record_heartbeat-IsValid :
    (now : ℕ) (id : String) (lsn : ℕ) (c : ClusterMembership)
    → IsValid c
    → IsValid (record_heartbeat now id lsn c)
unfolding record_heartbeat heard
record_heartbeat-IsValid now id lsn c v =
    Tame-IsValid (λ k n. if str_eq id k then some (heard now lsn n) else some n)
      (λ k n m e. ground arith) c (record_heartbeat now id lsn c)
      (λ k. rw lookup-adjust (ground arith)) (adjust-Distinct id (heard now lsn) c.nodes v.distinct)
      (ground (arith, lookup-adjust id c.node_id (heard now lsn) c.nodes, v.present)) v

pub mark_rejoined-IsValid :
    (now : ℕ) (id : String) (c : ClusterMembership) → IsValid c → IsValid (mark_rejoined now id c)
unfolding mark_rejoined
mark_rejoined-IsValid now id c v =
    Tame-IsValid (λ k n. if str_eq id k then some (rejoin n) else some n) (λ k n m e. ground arith)
      c (mark_rejoined now id c) (λ k. rw lookup-adjust (ground arith))
      (adjust-Distinct id rejoin c.nodes v.distinct)
      (ground (arith, lookup-adjust id c.node_id rejoin c.nodes, v.present)) v
  where
    rejoin : NodeState → NodeState
    rejoin n = touch now (record n { status = syncing })

some-injective : {A : Type 0} {a b : A} → some a ≡ some b → a ≡ b
some-injective h = cc

pub update_node-IsValid :
    (id : String) (f : NodeState → NodeState) (c : ClusterMembership)
    → ((n : NodeState)
        → ((f n).id ≡ n.id) × (is_leader (f n).role ≡ true → is_leader n.role ≡ true))
    → IsValid c
    → IsValid (update_node id f c)
unfolding update_node
update_node-IsValid id f c h v =
    Tame-IsValid (λ k n. if str_eq id k then some (f n) else some n)
      (λ k n m e. elim (Bool-cases (str_eq id k)) [
        | inl there ↦
            let made : f n ≡ m = some-injective (simp there at e) in
            (
              ap (λ (x : NodeState). x.id) (sym made) ∙ (h n).0,
              λ l. (h n).1 (ap (λ (x : NodeState). is_leader x.role) made ∙ l),
            )
        | inr other ↦
            let same : n ≡ m = some-injective (simp other at e) in
            (
              ap (λ (x : NodeState). x.id) (sym same),
              λ l. ap (λ (x : NodeState). is_leader x.role) same ∙ l,
            )
      ])
      c (update_node id f c) (λ k. rw lookup-adjust (ground arith))
      (adjust-Distinct id f c.nodes v.distinct)
      (ground (arith, lookup-adjust id c.node_id f c.nodes, v.present)) v

pub update_replication_lag-IsValid :
    (lsn : ℕ) (c : ClusterMembership) → IsValid c → IsValid (update_replication_lag lsn c)
unfolding update_replication_lag
update_replication_lag-IsValid lsn c v =
    Tame-IsValid (λ k n. some (lag_behind lsn n)) (λ k n m e. ground arith) c
      (update_replication_lag lsn c) (λ k. rw lookup-map_values (ground arith))
      (map_values-Distinct (lag_behind lsn) c.nodes v.distinct)
      (ground (arith, lookup-map_values c.node_id (lag_behind lsn) c.nodes, v.present)) v

-- This node may not be removed from its own map.
pub remove_peer-IsValid :
    (id : String) (c : ClusterMembership)
    → id ≢ c.node_id
    → IsValid c
    → IsValid (remove_peer id c).0
unfolding remove_peer
remove_peer-IsValid id c other v =
    Tame-IsValid (λ k n. if str_eq id k then none else some n) (λ k n m e. ground arith) c
      (remove_peer id c).0 (λ k. rw lookup-remove (ground arith))
      (remove-Distinct id c.nodes v.distinct)
      (ground (arith, lookup-remove id c.node_id c.nodes, v.present, str_eq_iff id c.node_id)) v

synthetic_id-is_synthetic : (address : String) → is_synthetic (synthetic_id address) ≡ true
unfolding synthetic_id
synthetic_id-is_synthetic address = starts_with-append "peer-" (replace_char b':' "-" address)

-- `add_peer` removes synthetic entries only.
same_address-is_synthetic :
    (id address k : String) (m : Dict NodeState)
    → any (λ j. str_eq j k) (same_address id address m) ≡ true
    → is_synthetic k ≡ true
unfolding same_address
same_address-is_synthetic id address k [] h = cc
same_address-is_synthetic id address k ((j, n) ∷ m) h =
    ground (arith, same_address-is_synthetic id address k m, str_eq_iff j k)

-- What is left of the map before `add_peer` looks for the new key.
cleaned : String → String → Dict NodeState → Dict NodeState
cleaned id address m =
    let m' = remove (synthetic_id address) m in remove_all (same_address id address m') m'

lookup-cleaned :
    (id address k : String) (m : Dict NodeState)
    → is_synthetic k ≡ false
    → lookup k (cleaned id address m) ≡ lookup k m
unfolding cleaned
lookup-cleaned id address k m real =
    let m' = remove (synthetic_id address) m in
    ground (
      arith,
      lookup-remove_all (same_address id address m') k m',
      lookup-remove (synthetic_id address) k m,
      same_address-is_synthetic id address k m',
      synthetic_id-is_synthetic address,
      str_eq_iff (synthetic_id address) k,
    )

cleaned-IsValid :
    (id address : String) (c : ClusterMembership)
    → is_synthetic c.node_id ≡ false
    → IsValid c
    → IsValid (record c { nodes = cleaned id address c.nodes })
cleaned-IsValid id address c real v =
    Tame-IsValid (λ k n. if gone k then none else some n) (λ k n m e. ground arith) c
      (record c { nodes = cleaned id address c.nodes }) (λ k. unfold cleaned in view k)
      (unfold cleaned in remove_all-Distinct _ _ (remove-Distinct _ c.nodes v.distinct))
      (ground (arith, lookup-cleaned id address c.node_id c.nodes real, v.present)) v
  where
    rest : Dict NodeState
    rest = remove (synthetic_id address) c.nodes

    gone : String → Bool
    gone k = any (λ j. str_eq j k) (same_address id address rest) || str_eq (synthetic_id address) k

    view :
        (k : String)
        → lookup k (remove_all (same_address id address rest) rest)
          ≡ through (lookup k c.nodes) (λ n. if gone k then none else some n)
    view k = ground (
      arith,
      lookup-remove_all (same_address id address rest) k rest,
      lookup-remove (synthetic_id address) k c.nodes,
    )

-- A follower under a key that is not there yet.
inserted-IsValid :
    (id : String) (n : NodeState) (c : ClusterMembership)
    → lookup id c.nodes ≡ none
    → n.id ≡ id
    → is_leader n.role ≡ false
    → IsValid c
    → IsValid (record c { nodes = insert id n c.nodes })
inserted-IsValid id n c free named plain v = record {
  distinct = insert-Distinct id n c.nodes v.distinct;
  keyed = λ k m e. ground (arith, lookup-insert id k n c.nodes, str_eq_iff id k, v.keyed k m);
  present = ground (arith, lookup-insert id c.node_id n c.nodes, v.present);
  one_leader = λ j k a b e f ha hb.
      ground
        (arith, lookup-insert id j n c.nodes, lookup-insert id k n c.nodes, v.one_leader j k a b);
}

add_peer_new :
    (now : ℕ) (id address : String) (c : ClusterMembership)
    → lookup id (cleaned id address c.nodes) ≡ none
    → add_peer now id address c
      ≡ record c { nodes = insert id (new_node now id address) (cleaned id address c.nodes) }
unfolding add_peer cleaned
add_peer_new now id address c free = ground arith

add_peer_known :
    (now : ℕ) (id address : String) (c : ClusterMembership) (n : NodeState)
    → lookup id (cleaned id address c.nodes) ≡ some n
    → add_peer now id address c ≡ record c { nodes = cleaned id address c.nodes }
unfolding add_peer cleaned
add_peer_known now id address c n there = ground arith

pub add_peer-IsValid :
    (now : ℕ) (id address : String) (c : ClusterMembership)
    → is_synthetic c.node_id ≡ false
    → IsValid c
    → IsValid (add_peer now id address c)
add_peer-IsValid now id address c real v =
    let rest = cleaned id address c.nodes in
    let kept = cleaned-IsValid id address c real v in
    elim (Option-cases (lookup id rest)) [
      | inl free ↦ rw (add_peer_new now id address c free) (
          inserted-IsValid id (new_node now id address) (record c { nodes = rest }) free refl refl
            kept)
      | inr (n, there) ↦ rw (add_peer_known now id address c n there) kept
    ]

abbrev pub or_else {ℓ} : {V : Type ℓ} → Option V → Option V → Option V
or_else none d = d
or_else (some v) d = some v

-- Whatever was known about a node that is not synthetic stays known, and the new node is known.
pub lookup-add_peer :
    (now : ℕ) (id address k : String) (c : ClusterMembership)
    → is_synthetic k ≡ false
    → lookup k (add_peer now id address c).nodes
      ≡ or_else (lookup k c.nodes) (if str_eq id k then some (new_node now id address) else none)
lookup-add_peer now id address k c real =
    let rest = cleaned id address c.nodes in
    let same = lookup-cleaned id address k c.nodes real in
    elim (Option-cases (lookup id rest)) [
      | inl free ↦
          rw (add_peer_new now id address c free, lookup-insert)
            (ground (arith, same, str_eq_iff id k, free))
      | inr (n, there) ↦
          rw (add_peer_known now id address c n there)
            (ground (arith, same, str_eq_iff id k, there))
    ]
