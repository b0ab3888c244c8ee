-- ===== src/State/Tests/Elections.antt =====
-- The theorems on the election and on the tracker, at a node with one peer.
use wolf_scale.Base.{
  ℕ, String, ◌≡◌, ◌≢◌, refl, true, some, [], ◌∷◌, arith, ◌+◌, lookup, insert, remove, remove_all,
  adjust, replace_char, str_eq_iff, str_lt,
}
use wolf_scale.Error.{ok}
use wolf_scale.State.Membership
use wolf_scale.State.Membership.{
  ClusterMembership, NodeState, NodeStatus, NodeRole, new_node, add_peer, record_heartbeat, seat,
  current_leader, active, get_self, peers,
}
use wolf_scale.State.Membership.Valid.{new-IsValid}
use wolf_scale.State.Tracker
use wolf_scale.State.Tracker.{
  StateTracker, Applied, record_applied, cleanup_before, execute, query, upsert, last_applied_lsn,
  current_term, voted_for, set_last_applied_lsn, set_current_term, set_voted_for,
  set_current_leader,
}
use wolf_scale.State.Tracker.Watermarks.{watermarks_cover, IsCovered}
use wolf_scale.State.Election.{
  ElectionCoordinator, Draw, has_lowest_id, lowest_among, start_election, leader,
  handle_vote_request, decide_vote, step_down,
}
use wolf_scale.State.Election
use wolf_scale.State.Election.Votes.{Event, asks, step, run, vote_given, one_vote_per_term}
use wolf_scale.State.Election.Lowest.{start_election_wins}

abbrev tracker : StateTracker
tracker = Tracker.new []

abbrev draw : Draw
draw = record { now = 100; timeout = 50 }

abbrev alone : String → ClusterMembership
alone id = Membership.new 0 id "x:1" 1000 2000

abbrev node : String → ElectionCoordinator
node id = Election.new draw id (alone id) tracker

-- `id` sees `other` as an active peer.
abbrev facing : String → String → ElectionCoordinator
facing id other =
    Election.new draw id (record_heartbeat 10 other 0 (add_peer 0 other "y:1" (alone id))) tracker

abbrev seen : String → NodeState
seen id = record (new_node 0 id "y:1") { status = active; last_heartbeat = some 10 }

abbrev ask : ℕ → String → Event
ask term candidate = asks draw term candidate 0 0

one_vote_per_term_example : ◌≡◌ {A = String} "b" "b"
unfolding vote_given run step handle_vote_request decide_vote step_down Election.new
    Tracker.set_current_term Tracker.set_voted_for Tracker.execute Tracker.upsert
    Membership.update_node
one_vote_per_term_example =
    one_vote_per_term (node "a") (ask 2 "b") (ask 2 "b") (ask 2 "c" ∷ []) "b" "b" 2 refl refl

abbrev voted : StateTracker
voted = (set_voted_for (some "b") (set_current_term 3 tracker).1).1

voted-calm : voted.faults ≡ []
unfolding set_voted_for set_current_term execute upsert
voted-calm = refl

abbrev self_as : String → NodeState
self_as id = record (new_node 0 id "x:1") { status = active; last_heartbeat = some 0 }

abbrev self_node : NodeState
self_node = self_as "a"

abbrev refused : ElectionCoordinator
refused = record (facing "b" "a") { last_heartbeat = 100; election_timeout = 50 }

a_not_b : ◌≢◌ {A = String} "a" "b"
a_not_b e = ground (arith, str_eq_iff "a" "b", e)

facing_a-lowest : has_lowest_id (facing "a" "b") ≡ true
unfolding str_lt has_lowest_id lowest_among Election.new record_heartbeat add_peer peers
    Membership.new insert remove remove_all Membership.same_address Membership.synthetic_id
    replace_char lookup adjust Membership.heard Membership.heard_status
facing_a-lowest = refl

start_election_wins_example :
    (s' : ElectionCoordinator) × (start_election draw (node "a") ≡ some (ok tt, s'))
    × (s'.state ≡ leader)
    × (s'.term ≡ (node "a").term + 1)
    × (current_leader s'.cluster ≡ some (seat 100 self_node))
unfolding get_self has_lowest_id lowest_among Election.new peers Membership.new insert lookup
start_election_wins_example =
    start_election_wins draw (node "a") self_node (new-IsValid 0 "a" "x:1" 1000 2000) refl refl refl
      refl refl

watermarks_cover_example :
    IsCovered
      (record_applied 9 "t" "k" tracker).1.table_watermarks
      (record_applied 9 "t" "k" tracker).1.applied_entries
    × IsCovered
        (cleanup_before 4 tracker).1.table_watermarks
        (cleanup_before 4 tracker).1.applied_entries
watermarks_cover_example = watermarks_cover tracker 9 4 "t" "k" refl tt
