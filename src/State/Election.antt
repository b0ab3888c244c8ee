-- ===== src/State/Election.antt =====
-- state/election.rs: the election coordinator. A method is an `Act` on the coordinator, which holds
-- the cluster and the tracker that the source shares by `Arc`; calls that touch them go through
-- `on_cluster` and `on_tracker`. The clock and the random timeout that a call draws are the two
-- numbers of `Draw`. Methods are taken one at a time: another task's turn inside an `.await` is
-- not modelled.
pub mod Votes
pub mod Lowest
use wolf_scale.Base.{
  ℕ, ◌+◌, ◌-◌, String, Bool, true, false, not, ◌&&◌, ◌||◌, Option, none, some, List, [], ◌∷◌, ◌++◌,
  ltb, leb, ◌==◌, if◌then◌else◌, length, any, str_eq, str_lt,
}
use wolf_scale.Error.{Result, ok, err, Act, pure, gets, modify, continue, ◌>>=◌, ◌>>◌}
use wolf_scale.State.Tracker.{StateTracker, set_current_term, set_voted_for}
use wolf_scale.State.Membership
use wolf_scale.State.Membership.{
  ClusterMembership, NodeState, NodeRole, is_active, is_dropped, is_offline, is_synthetic, peers,
  get_self, current_leader, update_node, quorum_size, set_leader,
}
use wolf_scale.Replication.Protocol.{Message, vote_response}

pub data ElectionState : Type 0 where
  follower candidate leader : ElectionState

abbrev pub is_candidate : ElectionState → Bool
is_candidate candidate = true
is_candidate _ = false

abbrev pub is_follower : ElectionState → Bool
is_follower follower = true
is_follower _ = false

abbrev pub is_leader : ElectionState → Bool
is_leader leader = true
is_leader _ = false

pub record ElectionCoordinator : Type 0 where
  pub node_id : String
  pub state : ElectionState
  pub term : ℕ
  pub voted_for : Option String
  pub votes_received : List String
  pub last_heartbeat : ℕ
  pub election_timeout : ℕ
  pub cluster : ClusterMembership
  pub state_tracker : StateTracker
  pub last_log_lsn : ℕ

-- What the outside gives a call: the clock, and the timeout drawn from the configured range.
pub record Draw : Type 0 where
  pub now : ℕ
  pub timeout : ℕ

-- `ElectionCoordinator::new`
unfoldable pub new : Draw → String → ClusterMembership → StateTracker → ElectionCoordinator
new d node_id cluster tracker = record {
  node_id = node_id;
  state = follower;
  term = 1;
  voted_for = none;
  votes_received = [];
  last_heartbeat = d.now;
  election_timeout = d.timeout;
  cluster = cluster;
  state_tracker = tracker;
  last_log_lsn = 0;
}

abbrev E : Type 0
E = ElectionCoordinator

abbrev pub on_cluster : (ClusterMembership → ClusterMembership) → Act E (Unit {0})
on_cluster f s = (ok tt, record s { cluster = f s.cluster })

abbrev pub on_tracker : Act StateTracker (Unit {0}) → Act E (Unit {0})
on_tracker m s = let (r, t) = m s.state_tracker in (r, record s { state_tracker = t })

abbrev pub reset_timer : Draw → Act E (Unit {0})
reset_timer d s = (ok tt, record s { last_heartbeat = d.now; election_timeout = d.timeout })

abbrev pub set_last_log_lsn : ℕ → Act E (Unit {0})
set_last_log_lsn lsn = modify (λ s. record s { last_log_lsn = lsn })

unfoldable pub check_timeout : ℕ → E → Bool
check_timeout now s = ltb s.election_timeout (now - s.last_heartbeat)

-- The peers that the election looks at: not synthetic, neither dropped nor offline.
abbrev pub counts : NodeState → Bool
counts p = not (is_synthetic p.id) && not (is_dropped p.status || is_offline p.status)

unfoldable pub lowest_among : String → List NodeState → Bool
lowest_among id [] = true
lowest_among id (p ∷ ps) =
    if counts p then (if str_lt p.id id then false else lowest_among id ps) else lowest_among id ps

unfoldable pub has_lowest_id : E → Bool
has_lowest_id s = lowest_among s.node_id (peers s.cluster)

unfoldable pub become_leader : Draw → Act E (Unit {0})
become_leader d = do
  modify (λ s. record s { state = leader })
  id ← gets (λ s. s.node_id)
  on_cluster (set_leader d.now id)

-- `none` is the panic of `get_self`.
abbrev pub self_is_active : E → Option Bool
self_is_active s = elim (get_self s.cluster) [ none ↦ none | some n ↦ some (is_active n.status) ]

-- What follows the two guards of `start_election`.
unfoldable pub take_over : Draw → Act E (Unit {0})
take_over d = do
  modify (λ s. record s { term = s.term + 1 })
  new_term ← gets (λ s. s.term)
  on_tracker (set_current_term new_term)
  become_leader d

-- `none` is a panic.
unfoldable pub start_election : Draw → E → Option (Result (Unit {0}) × E)
start_election d s = elim (self_is_active s) [
  | none ↦ none
  | some up ↦ some (
      if not up
      then (ok tt, s)
      else if not (has_lowest_id s)
      then reset_timer d s
      else take_over d s)
]

abbrev pub demote : NodeState → NodeState
demote n = record n { role = NodeRole.follower }

abbrev pub raise_term : ℕ → Act E (Unit {0})
raise_term new_term = do
  modify (λ s. record s { term = new_term })
  on_tracker (set_current_term new_term)

unfoldable pub step_down : Draw → ℕ → Act E (Unit {0})
step_down d new_term = do
  current_term ← gets (λ s. s.term)
  if ltb current_term new_term then raise_term new_term else pure tt
  modify (λ s. record s { state = follower; voted_for = none })
  on_tracker (set_voted_for none)
  id ← gets (λ s. s.node_id)
  on_cluster (update_node id demote)
  reset_timer d

abbrev pub may_vote : Option String → String → Bool
may_vote none candidate_id = true
may_vote (some id) candidate_id = str_eq id candidate_id

abbrev pub grant : Draw → String → Act E (Unit {0})
grant d candidate_id = do
  modify (λ s. record s { voted_for = some candidate_id })
  on_tracker (set_voted_for (some candidate_id))
  reset_timer d

unfoldable pub decide_vote : Draw → String → ℕ → Act E Message
decide_vote d candidate_id last_log_lsn = do
  vote ← gets (λ s. s.voted_for)
  ours ← gets (λ s. s.last_log_lsn)
  let granted = may_vote vote candidate_id && leb ours last_log_lsn
  if granted then grant d candidate_id else pure tt
  gets (λ s. vote_response s.node_id s.term granted)

unfoldable pub handle_vote_request : Draw → ℕ → String → ℕ → ℕ → Act E Message
handle_vote_request d term candidate_id last_log_lsn last_log_term s =
    if ltb term s.term
    then (ok (vote_response s.node_id s.term false), s)
    else (do
      if ltb s.term term then step_down d term else pure tt
      decide_vote d candidate_id last_log_lsn)
        s

unfoldable pub check_election_result : Draw → Act E (Unit {0})
check_election_result d s =
    if not (is_candidate s.state)
    then (ok tt, s)
    else if leb (quorum_size s.cluster) (length s.votes_received)
    then become_leader d s
    else (ok tt, s)

-- A voter is counted once.
abbrev pub count_vote : String → E → E
count_vote voter_id s =
    if any (λ v. str_eq v voter_id) s.votes_received
    then s
    else record s { votes_received = s.votes_received ++ (voter_id ∷ []) }

unfoldable pub handle_vote_response : Draw → String → ℕ → Bool → Act E (Unit {0})
handle_vote_response d voter_id term vote_granted s =
    if not (is_candidate s.state)
    then (ok tt, s)
    else if not (term == s.term)
    then (if ltb s.term term then step_down d term s else (ok tt, s))
    else check_election_result d (if vote_granted then count_vote voter_id s else s)

unfoldable pub become_follower : Draw → ℕ → String → Act E (Unit {0})
become_follower d term leader_id = do
  modify (λ s. record s { term = term; state = follower })
  on_cluster (set_leader d.now leader_id)
  id ← gets (λ s. s.node_id)
  on_cluster (update_node id demote)
  reset_timer d

-- The tests of `should_reclaim_leadership` behind the role and the id.
abbrev caught_up : E → NodeState → Option Bool
caught_up s l = elim (get_self s.cluster) [
  | none ↦ none
  | some n ↦ some (is_active n.status && leb l.last_applied_lsn n.last_applied_lsn)
]

-- `none` is a panic.
unfoldable pub should_reclaim_leadership : E → Option Bool
should_reclaim_leadership s =
    if not (is_follower s.state)
    then some false
    else if not (has_lowest_id s)
    then some false
    else elim (current_leader s.cluster) [ none ↦ some true | some l ↦ caught_up s l ]

-- The loop of `should_yield_leadership`.
unfoldable pub yield_to : String → ℕ → List NodeState → Option String
yield_to id lsn [] = none
yield_to id lsn (p ∷ ps) =
    if counts p && (str_lt p.id id && leb lsn p.last_applied_lsn)
    then some p.id
    else yield_to id lsn ps

-- `none` is a panic.
unfoldable pub should_yield_leadership : E → Option (Option String)
should_yield_leadership s =
    if not (is_leader s.state) then some none else elim (get_self s.cluster) [
      | none ↦ none
      | some n ↦ some (yield_to s.node_id n.last_applied_lsn (peers s.cluster))
    ]
