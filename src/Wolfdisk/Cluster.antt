-- ===== src/Wolfdisk/Cluster.antt =====
-- wolfdisk/src/cluster/state.rs: the state of a node of the file system's cluster, its log of
-- changes and its election. A path is its text, and `Instant`s are milliseconds; each thread's round
-- is one step. Starting and stopping threads and the status file are left out.
pub mod Changes
pub mod Election
mod Tests
use wolf_scale.Base.{
  ℕ, zero, suc, ◌+◌, ◌-◌, String, Bool, true, false, not, ◌&&◌, ◌||◌, Option, none, some, List, [],
  ◌∷◌, ◌++◌, ltb, leb, if◌then◌else◌, length, drop, keep, first, u64, Dict, lookup, insert, values,
  str_lt,
}

pub data ClusterState : Type 0 where
  discovering following leading client standalone : ClusterState

-- `NodeRole` of wolfdisk/src/config.rs
pub data NodeRole : Type 0 where
  auto_role leader_role follower_role client_role : NodeRole

pub record PeerInfo : Type 0 where
  pub node_id : String
  pub address : String
  pub is_leader : Bool
  pub is_client : Bool
  pub last_seen : ℕ

-- `(version, path, is_deleted)`
pub record Change : Type 0 where
  pub version : ℕ
  pub path : String
  pub is_deleted : Bool

pub record ClusterManager : Type 0 where
  pub node_id : String
  pub role : NodeRole
  pub state : ClusterState
  pub leader_id : Option String
  pub peers : Dict PeerInfo
  pub term : ℕ
  pub last_leader_heartbeat : ℕ
  pub index_version : ℕ
  pub initial_sync_complete : Bool
  pub changelog : List Change

abbrev pub is_client_role : NodeRole → Bool
is_client_role client_role = true
is_client_role _ = false

unfoldable pub new : ℕ → String → NodeRole → ClusterManager
new now node_id role = record {
  node_id = node_id;
  role = role;
  state = if is_client_role role then client else discovering;
  leader_id = none;
  peers = [];
  term = 0;
  last_leader_heartbeat = now;
  index_version = 0;
  initial_sync_complete = false;
  changelog = [];
}

abbrev pub is_leading : ClusterState → Bool
is_leading leading = true
is_leading _ = false

unfoldable pub is_leader : ClusterManager → Bool
is_leader m = is_leading m.state

unfoldable pub leader_address : ClusterManager → Option String
leader_address m = elim m.leader_id [
  | none ↦ none
  | some id ↦ elim (lookup id m.peers) [ none ↦ none | some p ↦ some p.address ]
]

-- The last ten thousand changes
abbrev pub capped : List Change → List Change
capped log = if ltb 10000 (length log) then drop (length log - 10000) log else log

unfoldable pub record_change : String → Bool → ClusterManager → ℕ × ClusterManager
record_change path is_deleted m =
    let version = u64 (m.index_version + 1) in
    let change : Change = record { version = version; path = path; is_deleted = is_deleted } in
    (
      version,
      record m { index_version = version; changelog = capped (m.changelog ++ (change ∷ [])) },
    )

-- `increment_index_version` and `record_deletion`
abbrev pub increment_index_version : String → ClusterManager → ℕ × ClusterManager
increment_index_version path = record_change path false

abbrev pub record_deletion : String → ClusterManager → ℕ × ClusterManager
record_deletion path = record_change path true

unfoldable pub latest_ops : ℕ → List Change → Dict Bool → Dict Bool
latest_ops from_version [] ops = ops
latest_ops from_version (c ∷ cs) ops =
    latest_ops from_version cs
      (if ltb from_version c.version then insert c.path c.is_deleted ops else ops)

abbrev pub changed_paths : Dict Bool → List String
changed_paths [] = []
changed_paths ((path, true) ∷ ops) = changed_paths ops
changed_paths ((path, false) ∷ ops) = path ∷ changed_paths ops

abbrev pub deleted_paths : Dict Bool → List String
deleted_paths [] = []
deleted_paths ((path, true) ∷ ops) = path ∷ deleted_paths ops
deleted_paths ((path, false) ∷ ops) = deleted_paths ops

abbrev pub is_truncated : ℕ → List Change → Bool
is_truncated from_version [] = false
is_truncated from_version (oldest ∷ _) = ltb from_version oldest.version

unfoldable pub changes_since : ℕ → ClusterManager → Option (List String × List String)
changes_since from_version m =
    let ops = latest_ops from_version m.changelog [] in
    if is_truncated from_version m.changelog
    then none
    else some (changed_paths ops, deleted_paths ops)

unfoldable pub set_index_version : ℕ → ClusterManager → ClusterManager
set_index_version version m = record m { index_version = version }

unfoldable pub set_sync_complete : ClusterManager → ClusterManager
set_sync_complete m = record m { initial_sync_complete = true }

unfoldable pub receive_leader_heartbeat : ℕ → ClusterManager → ClusterManager
receive_leader_heartbeat now m = record m { last_leader_heartbeat = now }

unfoldable pub is_leader_timeout : ℕ → ClusterManager → Bool
is_leader_timeout now m = ltb 2000 (now - m.last_leader_heartbeat)

-- A round of the thread that copies the peers that discovery has found
unfoldable pub copy_peers : Bool → List PeerInfo → ClusterManager → ClusterManager
copy_peers is_client [] m = m
copy_peers is_client (p ∷ ps) m =
    let leader = if is_client && p.is_leader then some p.node_id else m.leader_id in
    copy_peers is_client ps (record m { leader_id = leader; peers = insert p.node_id p m.peers })

unfoldable pub update_peer : PeerInfo → ClusterManager → ClusterManager
update_peer p m = record m { peers = insert p.node_id p m.peers }

-- A peer that was seen less than four seconds ago
abbrev pub active_peers : ℕ → ClusterManager → List PeerInfo
active_peers now m = keep (λ p. ltb (now - p.last_seen) 4000) (values m.peers)

abbrev pub below_all : String → List PeerInfo → Bool
below_all id [] = true
below_all id (p ∷ ps) =
    if p.is_client then below_all id ps else str_lt id p.node_id && below_all id ps

unfoldable pub i_am_lowest : ℕ → ClusterManager → Bool
i_am_lowest now m = below_all m.node_id (active_peers now m)

abbrev pub lead : ClusterManager → ClusterManager
lead m = record m { term = u64 (m.term + 1); leader_id = some m.node_id; state = leading }

abbrev pub follow : ℕ → PeerInfo → ClusterManager → ClusterManager
follow now p m = record m {
  last_leader_heartbeat = now;
  leader_id = some p.node_id;
  state = following;
}

abbrev pub is_follower_role : NodeRole → Bool
is_follower_role follower_role = true
is_follower_role _ = false

abbrev pub is_empty : List PeerInfo → Bool
is_empty [] = true
is_empty (_ ∷ _) = false

-- What a node does that does not lead, by the leader that it sees
abbrev pub stand_by : ℕ → Option PeerInfo → ClusterManager → ClusterManager
stand_by now (some p) m =
    if i_am_lowest now m && str_lt m.node_id p.node_id
    then lead (follow now p m)
    else follow now p m
stand_by now none m =
    if i_am_lowest now m && not (is_follower_role m.role)
    then if m.initial_sync_complete || is_empty (active_peers now m) then lead m else m
    else record m { state = following }

abbrev pub by_state : ℕ → ClusterState → ClusterManager → ClusterManager
by_state now discovering m = stand_by now (first (λ p. p.is_leader) (active_peers now m)) m
by_state now following m = stand_by now (first (λ p. p.is_leader) (active_peers now m)) m
by_state now leading m =
    if i_am_lowest now m then m else record m { state = following; last_leader_heartbeat = now }
by_state now client m = m
by_state now standalone m = m

-- A round of the election monitor
unfoldable pub election_round : ℕ → ClusterManager → ClusterManager
election_round now m = by_state now m.state m
