-- ===== src/State/Membership/Dropped.antt =====
-- Dropped nodes in state/membership.rs: what brings one back into the cluster.
use wolf_scale.Base.{
  ℕ, String, ◌≡◌, ◌≢◌, Bool, if◌then◌else◌, true, false, Option, none, some, List, [], ◌∷◌, arith,
  lookup, on_some, lookup-adjust, lookup-remove, lookup-map_values, lookup-remove_all, str_eq,
  str_eq_iff, ◌⊎◌, inl, inr,
}
use wolf_scale.State.Membership.{
  ClusterMembership, NodeState, dropped, is_synthetic, remove_peer, record_heartbeat,
  check_timeouts, set_leader, update_replication_lag, mark_rejoined, update_node, heard,
  heard_status, time_out, overdue_by, is_healthy, lag_behind, unseat,
}
use wolf_scale.State.Membership.Valid.{lookup-add_peer, or_else}
use wolf_scale.State.Membership.Timeouts.{lookup-sweep}
use wolf_scale.State.Membership.Run.{
  Call, call, run, adds, removes, hears, sweeps, seats, measures, rejoins, updates,
}

-- The call does not name `k` as a new peer, as the leader or as rejoined, and update_node leaves
-- dropped what is dropped.
abbrev pub Leaves : String → Call → Type 0
Leaves k (adds now id address) = id ≢ k
Leaves k (seats now id) = id ≢ k
Leaves k (rejoins now id) = id ≢ k
Leaves k (updates id f) = (id ≢ k) ⊎ ((n : NodeState) → n.status ≡ dropped → (f n).status ≡ dropped)
Leaves k _ = Unit

abbrev pub AllLeave : String → List Call → Type 0
AllLeave k [] = Unit
AllLeave k (x ∷ xs) = Leaves k x × AllLeave k xs

-- The node is not in the map, or is dropped.
abbrev pub IsOut : Option NodeState → Type 0
IsOut none = Unit {0}
IsOut (some n) = n.status ≡ dropped

time_out-IsOut :
    (c : ClusterMembership) (now : ℕ) (k : String) (n : NodeState)
    → n.status ≡ dropped
    → (time_out c now k n).0.status ≡ dropped
unfolding time_out overdue_by is_healthy
time_out-IsOut c now k n h = ground (arith, h)

swept-IsOut :
    (c : ClusterMembership) (now : ℕ) (k : String) (o : Option NodeState)
    → IsOut o
    → IsOut (on_some (λ n. (time_out c now k n).0) o)
swept-IsOut c now k none h = tt
swept-IsOut c now k (some n) h = time_out-IsOut c now k n h

heard-IsOut : (now lsn : ℕ) (o : Option NodeState) → IsOut o → IsOut (on_some (heard now lsn) o)
unfolding heard heard_status
heard-IsOut now lsn none h = tt
heard-IsOut now lsn (some n) h = ground (arith, h)

changed-IsOut :
    (f : NodeState → NodeState)
    → ((n : NodeState) → n.status ≡ dropped → (f n).status ≡ dropped)
    → (o : Option NodeState) → IsOut o
    → IsOut (on_some f o)
changed-IsOut f stays none h = tt
changed-IsOut f stays (some n) h = stays n h

unseat-IsOut : (o : Option NodeState) → IsOut o → IsOut (on_some unseat o)
unseat-IsOut none h = tt
unseat-IsOut (some n) h = h

lag-IsOut : (lsn : ℕ) (o : Option NodeState) → IsOut o → IsOut (on_some (lag_behind lsn) o)
lag-IsOut lsn none h = tt
lag-IsOut lsn (some n) h = h

if-IsOut : (b : Bool) (o p : Option NodeState) → IsOut o → IsOut p → IsOut (if b then o else p)
if-IsOut true o p h k = h
if-IsOut false o p h k = k

or_else-IsOut : (o : Option NodeState) → IsOut o → IsOut (or_else o none)
or_else-IsOut none h = tt
or_else-IsOut (some n) h = h

str_eq-other : (a b : String) → a ≢ b → str_eq a b ≡ false
str_eq-other a b other = ground (arith, str_eq_iff a b)

call-IsOut :
    (k : String) (x : Call) (c : ClusterMembership)
    → is_synthetic k ≡ false
    → Leaves k x
    → IsOut (lookup k c.nodes)
    → IsOut (lookup k (call x c).nodes)
unfolding call remove_peer record_heartbeat check_timeouts set_leader update_replication_lag
    mark_rejoined update_node
call-IsOut k (adds now id address) c real other h =
    rw (lookup-add_peer now id address k c real, str_eq-other id k other)
      (or_else-IsOut (lookup k c.nodes) h)
call-IsOut k (removes id) c real other h =
    rw lookup-remove (if-IsOut (str_eq id k) none (lookup k c.nodes) tt h)
call-IsOut k (hears now id lsn) c real other h =
    rw lookup-adjust
      (if-IsOut (str_eq id k) _ (lookup k c.nodes) (heard-IsOut now lsn (lookup k c.nodes) h) h)
call-IsOut k (sweeps now) c real other h =
    rw (lookup-remove_all, lookup-sweep)
      (if-IsOut _ none _ tt (swept-IsOut c now k (lookup k c.nodes) h))
call-IsOut k (seats now id) c real other h =
    rw (lookup-adjust, lookup-map_values, str_eq-other id k other)
      (unseat-IsOut (lookup k c.nodes) h)
call-IsOut k (measures lsn) c real other h =
    rw lookup-map_values (lag-IsOut lsn (lookup k c.nodes) h)
call-IsOut k (rejoins now id) c real other h = rw (lookup-adjust, str_eq-other id k other) h
call-IsOut k (updates id f) c real (inl other) h = rw (lookup-adjust, str_eq-other id k other) h
call-IsOut k (updates id f) c real (inr stays) h =
    rw lookup-adjust
      (if-IsOut (str_eq id k) _ (lookup k c.nodes) (changed-IsOut f stays (lookup k c.nodes) h) h)

run-IsOut :
    (k : String) (xs : List Call) (c : ClusterMembership)
    → is_synthetic k ≡ false
    → AllLeave k xs
    → IsOut (lookup k c.nodes)
    → IsOut (lookup k (run xs c).nodes)
unfolding run
run-IsOut k [] c real other h = h
run-IsOut k (x ∷ xs) c real other h =
    run-IsOut k xs (call x c) real other.1 (call-IsOut k x c real other.0 h)

-- A node that is dropped and not synthetic stays dropped, or leaves the map, whatever calls follow
-- that do not name it as a new peer, as the leader or as rejoined, update_node giving it no other
-- status; its heartbeats may be among them.
pub dropped_until_readmitted :
    (k : String) (xs : List Call) (c : ClusterMembership) (n : NodeState)
    → is_synthetic k ≡ false
    → AllLeave k xs
    → lookup k c.nodes ≡ some n
    → n.status ≡ dropped
    → IsOut (lookup k (run xs c).nodes)
dropped_until_readmitted k xs c n real other found h = run-IsOut k xs c real other (rw found h)
