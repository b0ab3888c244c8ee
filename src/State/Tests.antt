-- ===== src/State/Tests.antt =====
-- The theorems on state/ at a cluster of two or three nodes.
mod Elections
use wolf_scale.Base.{
  ℕ, ◌<◌, ◌≤◌, String, ◌≡◌, ◌≢◌, refl, true, false, Option, none, some, List, [], ◌∷◌, ◌⊎◌, inl,
  inr, arith, ◌*◌, ◌-◌, ◌/◌, ◌+◌, lookup, length, leb, ◌↔◌, str_eq_iff, str_eq, insert, adjust,
  remove, remove_all, replace_char,
}
use wolf_scale.Error.{ok}
use wolf_scale.State.Membership
use wolf_scale.State.Membership.{
  ClusterMembership, NodeState, NodeStatus, NodeRole, new_node, add_peer, record_heartbeat,
  check_timeouts, set_leader, seat, current_leader, active, dropped, has_quorum, quorum_size, size,
  active_nodes, removal_threshold, heard, heard_status, same_address, synthetic_id,
}
use wolf_scale.State.Membership.Valid.{
  IsValid, new-IsValid, add_peer-IsValid, record_heartbeat-IsValid, lookup-add_peer, or_else,
}
use wolf_scale.State.Membership.Run.{run, run-IsValid, adds, hears, sweeps, seats, removes}
use wolf_scale.State.Membership.Leader.{current_leader-set_leader, set_leader_unknown}
use wolf_scale.State.Membership.Timeouts.{
  check_timeouts_spares, check_timeouts_removes, check_timeouts_reports, silent_peer_removed,
  reported, IsExpired,
}
use wolf_scale.State.Membership.Dropped.{dropped_until_readmitted, IsOut}
use wolf_scale.State.Membership.Counts.{has_quorum-quorum_size, quorum_size_majority}

abbrev start : ClusterMembership
start = Membership.new 0 "a" "a:1" 1000 2000

abbrev pair : ClusterMembership
pair = add_peer 0 "b" "b:1" start

abbrev heard_pair : ClusterMembership
heard_pair = record_heartbeat 10 "b" 5 pair

pair-IsValid : IsValid pair
unfolding Membership.new
pair-IsValid = add_peer-IsValid 0 "b" "b:1" start refl (new-IsValid 0 "a" "a:1" 1000 2000)

heard_pair-IsValid : IsValid heard_pair
heard_pair-IsValid = record_heartbeat-IsValid 10 "b" 5 pair pair-IsValid

abbrev b_new : NodeState
b_new = new_node 0 "b" "b:1"

abbrev b_heard : NodeState
b_heard = record b_new { status = active; last_heartbeat = some 10; last_applied_lsn = 5 }

heard_pair-b : lookup "b" heard_pair.nodes ≡ some b_heard
unfolding lookup insert adjust remove remove_all Membership.new add_peer same_address synthetic_id
    replace_char record_heartbeat heard heard_status
heard_pair-b = refl

heard_pair-c : lookup "c" heard_pair.nodes ≡ none
unfolding lookup insert adjust remove remove_all Membership.new add_peer same_address synthetic_id
    replace_char record_heartbeat heard heard_status
heard_pair-c = refl

b_not_a : ◌≢◌ {A = String} "b" "a"
b_not_a e = ground (arith, str_eq_iff "b" "a", e)

a_not_b : ◌≢◌ {A = String} "a" "b"
a_not_b e = ground (arith, str_eq_iff "a" "b", e)

abbrev lost_pair : ClusterMembership
lost_pair = Membership.update_node "b" (λ n. record n { status = dropped }) heard_pair

lost_pair-b : lookup "b" lost_pair.nodes ≡ some (record b_heard { status = dropped })
unfolding lookup insert adjust remove remove_all Membership.new add_peer same_address synthetic_id
    replace_char record_heartbeat heard heard_status Membership.update_node
lost_pair-b = refl

run-IsValid_example :
    IsValid (
      run (adds 0 "b" "b:1" ∷ hears 10 "b" 5 ∷ seats 20 "b" ∷ sweeps 9000 ∷ removes "b" ∷ []) start)
run-IsValid_example =
    run-IsValid 0 "a" "a:1" 1000 2000
      (adds 0 "b" "b:1" ∷ hears 10 "b" 5 ∷ seats 20 "b" ∷ sweeps 9000 ∷ removes "b" ∷ []) refl
      (tt, (tt, (tt, (tt, (b_not_a, tt)))))

silent_peer_removed_example :
    lookup "b"
      (check_timeouts 90000 (check_timeouts 9000 (check_timeouts 5000 heard_pair).0).0).0.nodes
    ≡ none
unfolding record_heartbeat add_peer Membership.new
silent_peer_removed_example =
    silent_peer_removed 5000 9000 90000 10 heard_pair "b" b_heard heard_pair-IsValid heard_pair-b
      refl (b_not_a, refl, omega arith) (b_not_a, refl, omega arith) (b_not_a, refl, omega arith)
      (omega arith) (omega arith)

dropped_until_readmitted_example :
    IsOut
      (lookup "b" (run (hears 40000 "b" 9 ∷ sweeps 41000 ∷ seats 42000 "a" ∷ []) lost_pair).nodes)
dropped_until_readmitted_example =
    dropped_until_readmitted "b" (hears 40000 "b" 9 ∷ sweeps 41000 ∷ seats 42000 "a" ∷ []) lost_pair
      (record b_heard { status = dropped }) refl (tt, (tt, (a_not_b, tt))) lost_pair-b refl
