-- ===== src/State/Membership.antt =====
-- state/membership.rs: the nodes of the cluster as one node sees them. `Instant` and `Duration` are
-- numbers of milliseconds and the clock is the argument `now`; `elapsed` stops at 0, as in Rust.
pub mod Leader
pub mod Timeouts
pub mod Valid
pub mod Counts
pub mod Run
pub mod Dropped
use wolf_scale.Base.{
  ℕ, ◌+◌, ◌-◌, ◌*◌, ◌/◌, String, Bool, true, false, not, ◌&&◌, ◌||◌, Option, none, some, List, [],
  ◌∷◌, ltb, leb, ◌==◌, if◌then◌else◌, length, keep, first, Dict, lookup, insert, remove, adjust,
  map_values, remove_all, contains_key, values, str_eq, starts_with, replace_char,
}
use Prim.Native.String.{◌++◌}

pub data NodeStatus : Type 0 where
  joining syncing active lagging dropped offline needs_migration : NodeStatus

pub data NodeRole : Type 0 where
  leader follower candidate load_balancer : NodeRole

pub record NodeState : Type 0 where
  pub id : String
  pub address : String
  pub status : NodeStatus
  pub role : NodeRole
  pub last_applied_lsn : ℕ
  pub last_heartbeat : Option ℕ
  pub joined_at : ℕ
  pub replication_lag : ℕ

-- The derived `==` of `NodeStatus` and `NodeRole`, at the values that the code compares with.
abbrev pub is_active : NodeStatus → Bool
is_active active = true
is_active _ = false

abbrev pub is_syncing : NodeStatus → Bool
is_syncing syncing = true
is_syncing _ = false

abbrev pub is_joining : NodeStatus → Bool
is_joining joining = true
is_joining _ = false

abbrev pub is_dropped : NodeStatus → Bool
is_dropped dropped = true
is_dropped _ = false

abbrev pub is_offline : NodeStatus → Bool
is_offline offline = true
is_offline _ = false

abbrev pub is_leader : NodeRole → Bool
is_leader leader = true
is_leader _ = false

-- `NodeState::new`
abbrev pub new_node : ℕ → String → String → NodeState
new_node now id address = record {
  id = id;
  address = address;
  status = joining;
  role = follower;
  last_applied_lsn = 0;
  last_heartbeat = none;
  joined_at = now;
  replication_lag = 0;
}

unfoldable pub is_healthy : ℕ → ℕ → NodeState → Bool
is_healthy now timeout n = elim n.last_heartbeat [
  | none ↦ false
  | some last ↦ ltb (now - last) timeout
]

abbrev pub touch : ℕ → NodeState → NodeState
touch now n = record n { last_heartbeat = some now }

abbrev pub time_since_heartbeat : ℕ → NodeState → Option ℕ
time_since_heartbeat now n = elim n.last_heartbeat [ none ↦ none | some t ↦ some (now - t) ]

pub record ClusterMembership : Type 0 where
  pub node_id : String
  pub nodes : Dict NodeState
  pub heartbeat_timeout : ℕ
  pub election_timeout : ℕ

-- `ClusterMembership::new`
unfoldable pub new : ℕ → String → String → ℕ → ℕ → ClusterMembership
unfolding insert
new now node_id address heartbeat_timeout election_timeout = record {
  node_id = node_id;
  nodes = insert node_id (touch now (record (new_node now node_id address) { status = active })) [];
  heartbeat_timeout = heartbeat_timeout;
  election_timeout = election_timeout;
}

abbrev pub is_synthetic : String → Bool
is_synthetic id = starts_with id "peer-"

-- `format!("peer-{}", address.replace(':', "-"))`
unfoldable pub synthetic_id : String → String
unfolding replace_char
synthetic_id address = "peer-" ++ replace_char b':' "-" address

-- The keys that the second step of `add_peer` removes.
unfoldable pub same_address : String → String → Dict NodeState → List String
same_address id address [] = []
same_address id address ((k, n) ∷ m) =
    if str_eq n.address address && not (str_eq k id) && is_synthetic k
    then k ∷ same_address id address m
    else same_address id address m

unfoldable pub add_peer : ℕ → String → String → ClusterMembership → ClusterMembership
add_peer now id address c =
    let m = remove (synthetic_id address) c.nodes in
    let m' = remove_all (same_address id address m) m in
    record c { nodes = if contains_key id m' then m' else insert id (new_node now id address) m' }

-- The node that was removed comes back.
unfoldable pub remove_peer : String → ClusterMembership → ClusterMembership × Option NodeState
remove_peer id c = (record c { nodes = remove id c.nodes }, lookup id c.nodes)

unfoldable pub get_node : String → ClusterMembership → Option NodeState
get_node id c = lookup id c.nodes

-- `none` is the panic of `expect("Self node must exist")`.
unfoldable pub get_self : ClusterMembership → Option NodeState
get_self c = lookup c.node_id c.nodes

unfoldable pub update_node :
    String → (NodeState → NodeState) → ClusterMembership → ClusterMembership
update_node id f c = record c { nodes = adjust id f c.nodes }

-- The `match node.status` of `record_heartbeat`.
unfoldable pub heard_status : NodeStatus → ℕ → NodeStatus
heard_status joining lag = active
heard_status syncing lag = if lag == 0 then active else syncing
heard_status lagging lag = syncing
heard_status offline lag = active
heard_status s lag = s

-- What `record_heartbeat` does to the node that it finds.
unfoldable pub heard : ℕ → ℕ → NodeState → NodeState
unfolding heard_status
heard now lsn n = record n {
  last_heartbeat = some now;
  last_applied_lsn =
      if ltb 0 lsn && not (lsn == n.last_applied_lsn) then lsn else n.last_applied_lsn;
  status = heard_status n.status n.replication_lag;
}

unfoldable pub record_heartbeat : ℕ → String → ℕ → ClusterMembership → ClusterMembership
record_heartbeat now id lsn c = record c { nodes = adjust id (heard now lsn) c.nodes }

-- What one round of the loop of `check_timeouts` finds about a node.
pub data Verdict : Type 0 where
  quiet timed_out stale : Verdict

abbrev pub removal_threshold : ℕ
removal_threshold = 30000

abbrev elapsed_above : Option ℕ → ℕ → Bool
elapsed_above none limit = false
elapsed_above (some since) limit = ltb limit since

-- The branches on the status of a node that has not been heard within the timeout.
overdue_by : NodeStatus → ℕ → ℕ → NodeState → NodeState × Verdict
overdue_by active now election_timeout n = (record n { status = lagging }, timed_out)
overdue_by lagging now election_timeout n =
    if elapsed_above (time_since_heartbeat now n) (election_timeout * 3)
    then (
      record n { status = dropped; role = if is_leader n.role then follower else n.role },
      timed_out,
    )
    else (n, quiet)
overdue_by dropped now election_timeout n =
    (n, if elapsed_above (time_since_heartbeat now n) removal_threshold then stale else quiet)
overdue_by _ now election_timeout n = (n, quiet)

-- One round of that loop, for the entry of `k`.
unfoldable pub time_out : ClusterMembership → ℕ → String → NodeState → NodeState × Verdict
unfolding overdue_by is_healthy
time_out c now k n = if str_eq k c.node_id then (n, quiet) else elim n.last_heartbeat [
  | none ↦ (n, quiet)
  | some t ↦
      if is_healthy now c.heartbeat_timeout n
      then (n, quiet)
      else overdue_by n.status now c.election_timeout n
]

abbrev pub push_if : Bool → String → List String → List String
push_if true k ks = k ∷ ks
push_if false k ks = ks

abbrev pub is_timed_out : Verdict → Bool
is_timed_out timed_out = true
is_timed_out _ = false

abbrev pub is_stale : Verdict → Bool
is_stale stale = true
is_stale _ = false

-- The loop: the nodes, the keys in `timed_out` and those in `to_remove`.
unfoldable pub sweep :
    ClusterMembership → ℕ → Dict NodeState → Dict NodeState × List String × List String
sweep c now [] = ([], [], [])
sweep c now ((k, n) ∷ m) =
    let (rest, timed, gone) = sweep c now m in
    let (n', v) = time_out c now k n in
    ((k, n') ∷ rest, push_if (is_timed_out v) k timed, push_if (is_stale v) k gone)

unfoldable pub check_timeouts : ℕ → ClusterMembership → ClusterMembership × List String
check_timeouts now c =
    let (nodes, timed, gone) = sweep c now c.nodes in
    (record c { nodes = remove_all gone nodes }, timed)

unfoldable pub active_nodes : ClusterMembership → List NodeState
active_nodes c = keep (λ n. is_active n.status) (values c.nodes)

unfoldable pub peers : ClusterMembership → List NodeState
peers c = keep (λ n. not (str_eq n.id c.node_id)) (values c.nodes)

unfoldable pub real_peers : ClusterMembership → List NodeState
real_peers c = keep (λ n. not (str_eq n.id c.node_id) && not (is_synthetic n.id)) (values c.nodes)

unfoldable pub all_nodes : ClusterMembership → List NodeState
all_nodes c = keep (λ n. not (is_synthetic n.id)) (values c.nodes)

unfoldable pub current_leader : ClusterMembership → Option NodeState
current_leader c = first (λ n. is_leader n.role) (values c.nodes)

abbrev pub unseat : NodeState → NodeState
unseat n = record n { role = if is_leader n.role then follower else n.role }

abbrev pub seat : ℕ → NodeState → NodeState
seat now n = record n { role = leader; status = active; last_heartbeat = some now }

unfoldable pub set_leader : ℕ → String → ClusterMembership → ClusterMembership
set_leader now id c = record c { nodes = adjust id (seat now) (map_values unseat c.nodes) }

unfoldable pub size : ClusterMembership → ℕ
size c = length (values c.nodes)

unfoldable pub quorum_size : ClusterMembership → ℕ
unfolding size
quorum_size c = size c / 2 + 1

unfoldable pub has_quorum : ClusterMembership → Bool
unfolding active_nodes
has_quorum c = leb 2 (length (active_nodes c))

abbrev pub lag_behind : ℕ → NodeState → NodeState
lag_behind leader_lsn n = record n {
  replication_lag =
      if ltb n.last_applied_lsn leader_lsn then leader_lsn - n.last_applied_lsn else 0;
}

unfoldable pub update_replication_lag : ℕ → ClusterMembership → ClusterMembership
update_replication_lag leader_lsn c = record c {
  nodes = map_values (lag_behind leader_lsn) c.nodes;
}

unfoldable pub nodes_needing_sync : ClusterMembership → List NodeState
nodes_needing_sync c =
    keep
      (λ n.
        not (str_eq n.id c.node_id)
        && (is_syncing n.status || is_joining n.status || ltb 0 n.replication_lag))
      (values c.nodes)

unfoldable pub mark_rejoined : ℕ → String → ClusterMembership → ClusterMembership
mark_rejoined now id c = record c {
  nodes = adjust id (λ n. touch now (record n { status = syncing })) c.nodes;
}

pub record ClusterSummary : Type 0 where
  pub total_nodes : ℕ
  pub active_nodes : ℕ
  pub syncing_nodes : ℕ
  pub lagging_nodes : ℕ
  pub dropped_nodes : ℕ
  pub leader_id : Option String

-- The `match node.status` of `summary`.
count_status : NodeStatus → ClusterSummary → ClusterSummary
count_status active s = record s { active_nodes = s.active_nodes + 1 }
count_status syncing s = record s { syncing_nodes = s.syncing_nodes + 1 }
count_status lagging s = record s { lagging_nodes = s.lagging_nodes + 1 }
count_status dropped s = record s { dropped_nodes = s.dropped_nodes + 1 }
count_status _ s = s

summary_loop : List NodeState → ClusterSummary → ClusterSummary
unfolding count_status
summary_loop [] s = s
summary_loop (n ∷ ns) s =
    let s' = count_status n.status s in
    summary_loop ns (if is_leader n.role then record s' { leader_id = some n.id } else s')

unfoldable pub summary : ClusterMembership → ClusterSummary
unfolding summary_loop all_nodes
summary c =
    let real = all_nodes c in
    summary_loop real (record {
      total_nodes = length real;
      active_nodes = 0;
      syncing_nodes = 0;
      lagging_nodes = 0;
      dropped_nodes = 0;
      leader_id = none;
    })
