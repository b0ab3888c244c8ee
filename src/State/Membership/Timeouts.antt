-- ===== src/State/Membership/Timeouts.antt =====
-- `check_timeouts` of state/membership.rs, entry by entry.
use wolf_scale.Base.{
  ℕ, ◌-◌, ◌*◌, ◌≤◌, ◌<◌, String, ◌≡◌, ◌≢◌, refl, sym, ◌∙◌, ◌↔◌, Bool, true, false, Option, none,
  some, List, [], ◌∷◌, ◌⊎◌, inl, inr, arith, if◌then◌else◌, any, Dict, Distinct, lookup, on_some,
  lookup-remove_all, remove_all-Distinct, str_eq, str_eq_iff, Option-cases,
}
use wolf_scale.State.Membership.{
  NodeStatus, active, lagging, dropped, NodeState, ClusterMembership, is_leader, time_out, sweep,
  check_timeouts, is_stale, is_timed_out, removal_threshold, push_if, Verdict, follower,
}
use wolf_scale.State.Membership.Valid.{IsValid, Views, Tame, Tame-IsValid}

pub lookup-sweep :
    (c : ClusterMembership) (now : ℕ) (k : String) (m : Dict NodeState)
    → lookup k (sweep c now m).0 ≡ on_some (λ n. (time_out c now k n).0) (lookup k m)
unfolding lookup sweep
lookup-sweep c now k [] = refl
lookup-sweep c now k ((j, n) ∷ m) = ground (arith, lookup-sweep c now k m, str_eq_iff j k)

sweep-Distinct :
    (c : ClusterMembership) (now : ℕ) (m : Dict NodeState) → Distinct m → Distinct (sweep c now m).0
unfolding sweep
sweep-Distinct c now [] d = tt
sweep-Distinct c now ((j, n) ∷ m) d =
    ground (arith, sweep-Distinct c now m d.1, lookup-sweep c now j m)

abbrev goes : ClusterMembership → ℕ → String → Option NodeState → Bool
goes c now k none = false
goes c now k (some n) = is_stale (time_out c now k n).1

abbrev times_out : ClusterMembership → ℕ → String → Option NodeState → Bool
times_out c now k none = false
times_out c now k (some n) = is_timed_out (time_out c now k n).1

any-push_if :
    (b : Bool) (j k : String) (ks : List String)
    → any (λ i. str_eq i k) (push_if b j ks) ≡ (
        if b
        then (if str_eq j k then true else any (λ i. str_eq i k) ks)
        else any (λ i. str_eq i k) ks)
any-push_if true j k ks = refl
any-push_if false j k ks = refl

-- The keys in `to_remove` are those of the stale entries.
any-gone :
    (c : ClusterMembership) (now : ℕ) (k : String) (m : Dict NodeState)
    → Distinct m
    → any (λ j. str_eq j k) (sweep c now m).2 ≡ goes c now k (lookup k m)
unfolding sweep lookup
any-gone c now k [] d = refl
any-gone c now k ((j, n) ∷ m) d =
    rw (any-push_if (is_stale (time_out c now j n).1) j k (sweep c now m).2)
      (ground (arith, any-gone c now k m d.1, str_eq_iff j k))

any-timed :
    (c : ClusterMembership) (now : ℕ) (k : String) (m : Dict NodeState)
    → Distinct m
    → any (λ j. str_eq j k) (sweep c now m).1 ≡ times_out c now k (lookup k m)
unfolding sweep lookup
any-timed c now k [] d = refl
any-timed c now k ((j, n) ∷ m) d =
    rw (any-push_if (is_timed_out (time_out c now j n).1) j k (sweep c now m).1)
      (ground (arith, any-timed c now k m d.1, str_eq_iff j k))

-- What is left of the entry of `k`.
abbrev pub outlive : ClusterMembership → ℕ → String → NodeState → Option NodeState
outlive c now k n = if is_stale (time_out c now k n).1 then none else some (time_out c now k n).0

pub check_timeouts-Views :
    (now : ℕ) (c : ClusterMembership)
    → Distinct c.nodes
    → Views (outlive c now) c.nodes (check_timeouts now c).0.nodes
unfolding check_timeouts
check_timeouts-Views now c d k =
    rw lookup-remove_all (ground (arith, any-gone c now k c.nodes d, lookup-sweep c now k c.nodes))

outlive-Tame : (c : ClusterMembership) (now : ℕ) → Tame (outlive c now)
unfolding time_out
outlive-Tame c now k n m e = ground arith

time_out_self :
    (c : ClusterMembership) (now : ℕ) (n : NodeState) → outlive c now c.node_id n ≡ some n
unfolding time_out
time_out_self c now n = ground (arith, str_eq_iff c.node_id c.node_id)

self_stays :
    (now : ℕ) (c : ClusterMembership)
    → Distinct c.nodes
    → lookup c.node_id (check_timeouts now c).0.nodes ≡ lookup c.node_id c.nodes
self_stays now c d = elim (Option-cases (lookup c.node_id c.nodes)) [
  | inl e ↦ cc (check_timeouts-Views now c d c.node_id, e)
  | inr (n, e) ↦ cc (check_timeouts-Views now c d c.node_id, e, time_out_self c now n)
]

pub check_timeouts-IsValid :
    (now : ℕ) (c : ClusterMembership) → IsValid c → IsValid (check_timeouts now c).0
unfolding check_timeouts
check_timeouts-IsValid now c v =
    Tame-IsValid (outlive c now) (outlive-Tame c now) c (check_timeouts now c).0
      (check_timeouts-Views now c v.distinct)
      (remove_all-Distinct (sweep c now c.nodes).2 (sweep c now c.nodes).0
        (sweep-Distinct c now c.nodes v.distinct))
      (λ e. v.present (sym (self_stays now c v.distinct) ∙ e)) v

-- Is `k` in the list that `check_timeouts` returns?
abbrev pub reported : ℕ → String → ClusterMembership → Bool
reported now k c = any (λ j. str_eq j k) (check_timeouts now c).1

-- What spares an entry: it is this node's, it has never been heard, or it was heard in time.
abbrev pub IsSpared : ClusterMembership → ℕ → String → NodeState → Type 0
IsSpared c now k n =
    (k ≡ c.node_id)
    ⊎ (n.last_heartbeat ≡ none)
    ⊎ ((t : ℕ) × (n.last_heartbeat ≡ some t) × (now - t < c.heartbeat_timeout))

-- What condemns one: a peer heard once, and not for longer than the timeout.
abbrev pub IsSilent : ClusterMembership → ℕ → String → NodeState → ℕ → Type 0
IsSilent c now k n t =
    (k ≢ c.node_id) × (n.last_heartbeat ≡ some t) × (c.heartbeat_timeout ≤ now - t)

-- A valid cluster's sweep changes nothing about this node, a node never heard from, or a node
-- heard from within the timeout, and reports none of them.
pub check_timeouts_spares :
    (now : ℕ) (c : ClusterMembership) (k : String) (n : NodeState)
    → IsValid c
    → lookup k c.nodes ≡ some n
    → IsSpared c now k n
    → (lookup k (check_timeouts now c).0.nodes ≡ some n) × (reported now k c ≡ false)
unfolding check_timeouts time_out
check_timeouts_spares now c k n v found (inl self) = ground (
  arith,
  check_timeouts-Views now c v.distinct k,
  any-timed c now k c.nodes v.distinct,
  str_eq_iff k c.node_id,
)
check_timeouts_spares now c k n v found (inr spared) =
    ground (arith, check_timeouts-Views now c v.distinct k, any-timed c now k c.nodes v.distinct)

abbrev pub IsExpired : ClusterMembership → ℕ → String → NodeState → Type 0
IsExpired c now k n =
    (n.status ≡ dropped) × ((t : ℕ) × IsSilent c now k n t × (removal_threshold < now - t))

stale-IsExpired :
    (c : ClusterMembership) (now : ℕ) (k : String) (n : NodeState)
    → is_stale (time_out c now k n).1 ≡ true
    → IsExpired c now k n
unfolding time_out
stale-IsExpired c now k n h = elim (Option-cases n.last_heartbeat) [
  | inl e ↦ absurd (ground arith)
  | inr (t, e) ↦ (
    ground arith,
    (t, (λ q. ground (arith, str_eq_iff k c.node_id), e, ground arith), ground arith),
  )
]

-- A peer is dropped from the map exactly when it is marked as dropped, is silent, and was last
-- heard more than 30 seconds ago.
pub check_timeouts_removes :
    (now : ℕ) (c : ClusterMembership) (k : String) (n : NodeState)
    → IsValid c
    → lookup k c.nodes ≡ some n
    → (lookup k (check_timeouts now c).0.nodes ≡ none) ↔ IsExpired c now k n
check_timeouts_removes now c k n v found = (
  λ e. stale-IsExpired c now k n (ground (arith, check_timeouts-Views now c v.distinct k)),
  λ h.
      unfold time_out in
      ground (arith, check_timeouts-Views now c v.distinct k, str_eq_iff k c.node_id),
)

abbrev pub status_at : String → ClusterMembership → Option NodeStatus
status_at k c = elim (lookup k c.nodes) [ none ↦ none | some n ↦ some n.status ]

reported-eq :
    (now : ℕ) (c : ClusterMembership) (k : String) (n : NodeState)
    → IsValid c
    → lookup k c.nodes ≡ some n
    → reported now k c ≡ is_timed_out (time_out c now k n).1
unfolding check_timeouts
reported-eq now c k n v found = ground (arith, any-timed c now k c.nodes v.distinct)

survives :
    (now : ℕ) (c : ClusterMembership) (k : String) (n : NodeState)
    → IsValid c
    → lookup k c.nodes ≡ some n
    → lookup k (check_timeouts now c).0.nodes ≡ outlive c now k n
survives now c k n v found = ground (arith, check_timeouts-Views now c v.distinct k)

timed_out-not-stale : (x : Verdict) → is_timed_out x ≡ true → is_stale x ≡ false
timed_out-not-stale x h = ground arith

timed_out_changes :
    (c : ClusterMembership) (now : ℕ) (k : String) (n : NodeState)
    → is_timed_out (time_out c now k n).1 ≡ true
    → (time_out c now k n).0.status ≢ n.status
unfolding time_out
timed_out_changes c now k n h = ground arith

changes_timed_out :
    (c : ClusterMembership) (now : ℕ) (k : String) (n : NodeState)
    → (time_out c now k n).0.status ≢ n.status
    → is_timed_out (time_out c now k n).1 ≡ true
unfolding time_out
changes_timed_out c now k n h = ground arith

-- A key is reported exactly when its node stays and its status has changed.
pub check_timeouts_reports :
    (now : ℕ) (c : ClusterMembership) (k : String) (n : NodeState)
    → IsValid c
    → lookup k c.nodes ≡ some n
    → (reported now k c ≡ true) ↔ (
        (n' : NodeState) × (lookup k (check_timeouts now c).0.nodes ≡ some n')
        × (n'.status ≢ n.status))
check_timeouts_reports now c k n v found =
    let says = reported-eq now c k n v found in
    let stays = survives now c k n v found in
    (
      λ e. (
        (time_out c now k n).0,
        ground (arith, says, stays, timed_out-not-stale (time_out c now k n).1),
        timed_out_changes c now k n (sym says ∙ e),
      ),
      λ h. says ∙ changes_timed_out c now k n (λ q. h.2 (ground (arith, stays, h.1, q))),
    )

lags :
    (now t : ℕ) (c : ClusterMembership) (k : String) (n : NodeState)
    → IsValid c
    → lookup k c.nodes ≡ some n
    → n.status ≡ active
    → IsSilent c now k n t
    → lookup k (check_timeouts now c).0.nodes ≡ some (record n { status = lagging })
lags now t c k n v found up s =
    survives now c k n v found ∙ (unfold time_out in ground (arith, str_eq_iff k c.node_id))

drops :
    (now t : ℕ) (c : ClusterMembership) (k : String) (n : NodeState)
    → IsValid c
    → lookup k c.nodes ≡ some n
    → n.status ≡ lagging
    → IsSilent c now k n t
    → c.election_timeout * 3 < now - t
    → lookup k (check_timeouts now c).0.nodes
      ≡ some (record n { status = dropped; role = if is_leader n.role then follower else n.role })
drops now t c k n v found up s late =
    survives now c k n v found ∙ (unfold time_out in ground (arith, str_eq_iff k c.node_id))

-- A silent active peer is gone after three sweeps, at times at which it is late for the
-- heartbeat, for three elections, and for 30 seconds.
pub silent_peer_removed :
    (t1 t2 t3 t : ℕ) (c : ClusterMembership) (k : String) (n : NodeState)
    → IsValid c
    → lookup k c.nodes ≡ some n
    → n.status ≡ active
    → IsSilent c t1 k n t
    → IsSilent c t2 k n t
    → IsSilent c t3 k n t
    → c.election_timeout * 3 < t2 - t
    → removal_threshold < t3 - t
    → lookup k (check_timeouts t3 (check_timeouts t2 (check_timeouts t1 c).0).0).0.nodes ≡ none
unfolding check_timeouts
silent_peer_removed t1 t2 t3 t c k n v found up s1 s2 s3 late gone =
    let c1 = (check_timeouts t1 c).0 in
    let c2 = (check_timeouts t2 c1).0 in
    let n1 : NodeState = record n { status = lagging } in
    let n2 : NodeState = record n1 {
      status = dropped;
      role = if is_leader n.role then follower else n.role;
    } in
    let v1 = check_timeouts-IsValid t1 c v in
    let v2 = check_timeouts-IsValid t2 c1 v1 in
    let e1 = lags t1 t c k n v found up s1 in
    let e2 = drops t2 t c1 k n1 v1 e1 refl s2 late in
    (check_timeouts_removes t3 c2 k n2 v2 e2).1 (refl, (t, s3, gone))
