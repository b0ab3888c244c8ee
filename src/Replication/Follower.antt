-- ===== src/Replication/Follower.antt =====
-- replication/follower.rs: the follower. A method is an `Act` on the follower, whose election
-- coordinator holds the cluster and the tracker that the source shares by `Arc`. The database behind
-- `MariaDbExecutor` is a parameter: a type of states and `execute_entry`, whose failures include the
-- 30 minutes of the timeout. The channel to the outside is the list `sent`, or is closed. The periodic
-- acknowledgements of `process_batch_background`, from a task of their own, come where an argument says.
pub mod Apply
pub mod Batch
use wolf_scale.Base.{
  ℕ, ◌+◌, ◌-◌, ◌*◌, String, Bool, true, false, not, ◌&&◌, ◌||◌, Option, none, some, List, [], ◌∷◌,
  ◌++◌, ltb, leb, ◌==◌, if◌then◌else◌, last?,
}
use wolf_scale.Error.{Result, ok, err, network, Act, pure, gets, modify, continue, ◌>>=◌, ◌>>◌}
use wolf_scale.Wal.Entry.{WalEntry, LogEntry}
use wolf_scale.State.Tracker.{StateTracker, set_current_term, set_last_applied_lsn}
use wolf_scale.State.Membership.{ClusterMembership, set_leader, record_heartbeat}
use wolf_scale.State.Election.{
  ElectionCoordinator, ElectionState, Draw, check_timeout, should_reclaim_leadership,
  start_election, reset_timer, on_cluster, on_tracker,
}
use wolf_scale.State.Election
use wolf_scale.Replication.Protocol.{
  Message, heartbeat_response, append_entries_response, sync_request,
}

pub record ReplicationBatch : Type 0 where
  pub entries : List WalEntry
  pub term : ℕ
  pub leader_id : String
  pub leader_address : String

pub record FollowerNode (D : Type 0) : Type 0 where
  pub node_id : String
  pub executor : D
  pub max_batch_entries : ℕ
  pub heartbeat_interval : ℕ
  pub term : ℕ
  pub leader_id : Option String
  pub last_applied_lsn : ℕ
  pub last_heartbeat : ℕ
  pub sent : List (String × Message)
  pub closed : Bool
  pub election : ElectionCoordinator
  pub disable_auto_election : Bool
  pub was_leader : Bool

abbrev pub lsn_of : WalEntry → ℕ
lsn_of e = e.header.lsn

abbrev pub max_lsn : List WalEntry → ℕ
max_lsn es = elim (last? es) [ none ↦ 0 | some e ↦ lsn_of e ]

unfoldable pub is_gap : ℕ → ℕ → Bool
is_gap prev_lsn last_applied = ltb 0 prev_lsn && not (prev_lsn == last_applied)

module _ {D : Type 0} where
  -- `FollowerNode::new`; the two numbers are those of the configuration.
  abbrev pub new :
      Draw → String → ClusterMembership → StateTracker → D → ℕ → ℕ → Bool → Bool → FollowerNode D
  new d node_id cluster tracker db max_batch interval disable closed = record {
    node_id = node_id;
    executor = db;
    max_batch_entries = max_batch;
    heartbeat_interval = interval;
    term = 1;
    leader_id = none;
    last_applied_lsn = 0;
    last_heartbeat = d.now;
    sent = [];
    closed = closed;
    election = Election.new d node_id cluster tracker;
    disable_auto_election = disable;
    was_leader = false;
  }

  abbrev pub on_election : {A : Type 0} → Act ElectionCoordinator A → Act (FollowerNode D) A
  on_election m s = let (r, e) = m s.election in (r, record s { election = e })

  abbrev pub post : String × Message → FollowerNode D → FollowerNode D
  post m s = if s.closed then s else record s { sent = s.sent ++ (m ∷ []) }

  unfoldable pub request_sync : ℕ → Act (FollowerNode D) (Unit {0})
  request_sync from_lsn s = elim s.leader_id [
    | none ↦ (ok tt, s)
    | some leader ↦ (
      if s.closed then err (network "Failed to send sync request") else ok tt,
      post (leader, sync_request s.node_id from_lsn s.max_batch_entries) s,
    )
  ]

  unfoldable pub adopt_term : ℕ → Act (FollowerNode D) (Unit {0})
  adopt_term new_term = do
    modify (λ s. record s { term = new_term })
    on_election (on_tracker (set_current_term new_term))

  unfoldable pub handle_heartbeat : Draw → ℕ → String → ℕ → Act (FollowerNode D) Message
  handle_heartbeat d term leader_id commit_lsn = do
    current_term ← gets (λ s. s.term)
    if ltb current_term term then adopt_term term else pure tt
    modify (λ s. record s { leader_id = some leader_id })
    on_election (on_cluster (set_leader d.now leader_id))
    modify (λ s. record s { last_heartbeat = d.now })
    on_election (reset_timer d)
    last_applied ← gets (λ s. s.last_applied_lsn)
    if ltb last_applied commit_lsn then request_sync (last_applied + 1) else pure tt
    gets (λ s. heartbeat_response s.node_id s.term last_applied true)

  unfoldable pub handle_sync_tail : Bool → ℕ → Act (FollowerNode D) (Unit {0})
  handle_sync_tail has_more new_applied =
      if has_more then request_sync (new_applied + 1) else pure tt

  abbrev pub persist : ℕ → Act (FollowerNode D) (Unit {0})
  persist lsn = do
    modify (λ s. record s { last_applied_lsn = lsn })
    on_election (on_tracker (set_last_applied_lsn lsn))

  -- An error of the call is dropped.
  abbrev pub ignore : Act (FollowerNode D) (Unit {0}) → Act (FollowerNode D) (Unit {0})
  ignore m s = (ok tt, (m s).1)

  abbrev pub send_ack : ReplicationBatch → ℕ → FollowerNode D → FollowerNode D
  send_ack batch match_lsn s =
      post (batch.leader_address, append_entries_response s.node_id batch.term true match_lsn) s

  -- `none` is a panic of the coordinator.
  abbrev elect : Draw → FollowerNode D → Option (Result (Unit {0}) × FollowerNode D)
  elect d s = elim (start_election d s.election) [
    | none ↦ none
    | some p ↦ some (p.0, record s { election = p.1 })
  ]

  abbrev stand : Draw → FollowerNode D → Option (Result (Unit {0}) × FollowerNode D)
  stand d s = elim (should_reclaim_leadership s.election) [
    | none ↦ none
    | some true ↦ elect d s
    | some false ↦ if s.was_leader then some (ok tt, s) else elect d s
  ]

  abbrev by_state :
      ElectionState → Draw → FollowerNode D → Option (Result (Unit {0}) × FollowerNode D)
  by_state ElectionState.follower d s =
      let s' = record s { leader_id = none } in
      if s.disable_auto_election then some (ok tt, s') else stand d s'
  by_state ElectionState.candidate d s = elect d s
  by_state ElectionState.leader d s = some (ok tt, s)

  unfoldable pub check_leader_timeout :
      Draw → FollowerNode D → Option (Result (Unit {0}) × FollowerNode D)
  check_leader_timeout d s =
      if not (check_timeout d.now s.election)
      then some (ok tt, s)
      else by_state s.election.state d s

  unfoldable pub is_connected : ℕ → FollowerNode D → Bool
  is_connected now s = ltb (now - s.last_heartbeat) (s.heartbeat_interval * 2)

module _ {D : Type 0} (execute_entry : LogEntry → D → Result (Unit {0}) × D) where
  -- One round of the loop of `handle_append_entries`: `match_lsn` and the database.
  abbrev pub apply_one : ℕ → WalEntry → ℕ × D → ℕ × D
  apply_one last e (m, db) =
      if leb (lsn_of e) last then (m, db) else (lsn_of e, (execute_entry e.entry db).1)

  unfoldable pub apply_from : ℕ → List WalEntry → ℕ × D → ℕ × D
  apply_from last [] p = p
  apply_from last (e ∷ es) p = apply_from last es (apply_one last e p)

  abbrev pub apply_batch : ℕ → List WalEntry → Act (FollowerNode D) ℕ
  apply_batch last entries s =
      let (m, db) = apply_from last entries (last, s.executor) in (ok m, record s { executor = db })

  abbrev accept : List WalEntry → ℕ → Act (FollowerNode D) Message
  accept entries last_applied = do
    match_lsn ← apply_batch last_applied entries
    if ltb last_applied match_lsn then ignore (persist match_lsn) else pure tt
    gets (λ s. append_entries_response s.node_id s.term true match_lsn)

  abbrev refuse : ℕ → Act (FollowerNode D) Message
  refuse last_applied = do
    request_sync (last_applied + 1)
    gets (λ s. append_entries_response s.node_id s.term false last_applied)

  unfoldable pub check_and_apply : List WalEntry → ℕ → Act (FollowerNode D) Message
  check_and_apply entries prev_lsn s =
      if is_gap prev_lsn s.last_applied_lsn
      then refuse s.last_applied_lsn s
      else accept entries s.last_applied_lsn s

  unfoldable pub handle_append_entries :
      ℕ → ℕ → String → ℕ → List WalEntry → Act (FollowerNode D) Message
  handle_append_entries now term leader_id prev_lsn entries s =
      if ltb term s.term
      then (ok (append_entries_response s.node_id s.term false 0), s)
      else (do
        if ltb s.term term then adopt_term term else pure tt
        modify (λ s'. record s' { leader_id = some leader_id; last_heartbeat = now })
        check_and_apply entries prev_lsn)
          s

  -- The loop of `handle_sync_response`, which breaks at the first entry that fails.
  unfoldable pub sync_from : ℕ → List WalEntry → ℕ × D → ℕ × D
  sync_from last [] p = p
  sync_from last (e ∷ es) (n, db) = elim (leb (lsn_of e) last) [
    | true ↦ sync_from last es (n, db)
    | false ↦
        let (r, db') = execute_entry e.entry db in
        elim r [ ok _ ↦ sync_from last es (lsn_of e, db') | err _ ↦ (n, db') ]
  ]

  unfoldable pub handle_sync_response : List WalEntry → Bool → Act (FollowerNode D) (Unit {0})
  handle_sync_response entries has_more s =
      let last = s.last_applied_lsn in
      let (n, db) = sync_from last entries (last, s.executor) in
      (do
        modify (λ s'. record s' { executor = db })
        if ltb last n then persist n else pure tt
        handle_sync_tail has_more n)
        s

  -- The loop of `process_batch_background`: `highest_applied` and the database.
  unfoldable pub process_from : List WalEntry → ℕ × D → ℕ × D
  process_from [] p = p
  process_from (e ∷ es) p = process_from es (apply_one p.0 e p)

  -- The periodic acknowledgements: each Boolean says whether the task's timer fires while the entry in
  -- its place is executed, the last one after them all. The task sends the progress where it has grown.
  unfoldable pub periodic_acks : List Bool → List WalEntry → (progress last_acked : ℕ) → List ℕ
  periodic_acks [] es progress last_acked = []
  periodic_acks (fires ∷ ticks) [] progress last_acked =
      if fires && ltb last_acked progress then progress ∷ [] else []
  periodic_acks (fires ∷ ticks) (e ∷ es) progress last_acked =
      let next = if leb (lsn_of e) progress then progress else lsn_of e in
      let sent = progress ∷ periodic_acks ticks es next progress in
      let idle = periodic_acks ticks es next last_acked in
      if fires && ltb last_acked progress then sent else idle

  unfoldable pub send_acks : ReplicationBatch → List ℕ → FollowerNode D → FollowerNode D
  send_acks batch [] s = s
  send_acks batch (n ∷ ns) s = send_acks batch ns (send_ack batch n s)

  -- What comes behind the loop
  unfoldable pub finish_batch : ℕ → ReplicationBatch → ℕ → D → FollowerNode D → FollowerNode D
  finish_batch now batch highest db s =
      send_ack batch highest
        ((do
          modify (λ s'. record s' { executor = db })
          ignore (persist highest)
          on_election (on_cluster (record_heartbeat now s.node_id highest)))
          s).1

  unfoldable pub process_batch_background :
      ℕ → ReplicationBatch → List Bool → FollowerNode D → FollowerNode D
  process_batch_background now batch ticks s =
      let current_lsn = s.last_applied_lsn in
      let (highest, db) = process_from batch.entries (current_lsn, s.executor) in
      if leb (max_lsn batch.entries) current_lsn
      then send_ack batch current_lsn s
      else finish_batch now batch highest db
          (send_acks batch (periodic_acks ticks batch.entries current_lsn 0) s)
