-- ===== src/Replication/Leader.antt =====
-- replication/leader.rs: the leader. The log that it appends to and reads is an interface, `Log`, of
-- what `WalWriter` and `WalReader` offer it. A map on LSNs is a list of pairs, the answers to
-- pending writes are collected in `answered`, and `write` is cut where it waits: `begin_write` is what
-- comes before, `abandon_write` the timeout. The channel to the outside is the list `sent`, or closed.
pub mod Sorting
pub mod Commit
pub mod Sends
pub mod Votes
use wolf_scale.Base.{
  ℕ, ◌+◌, ◌-◌, String, Bool, true, false, not, ◌&&◌, ◌||◌, Option, none, some, List, [], ◌∷◌, ◌++◌,
  ltb, leb, ◌==◌, if◌then◌else◌, length, get_elem?, keep, map, any, count, last?, str_lt, Dict,
  lookup, insert, remove, values,
}
use wolf_scale.Error.{Result, ok, err, replication, Act, pure, gets, modify, continue, ◌>>=◌, ◌>>◌}
use wolf_scale.Wal.Entry.{WalEntry, LogEntry}
use wolf_scale.State.Tracker.{StateTracker, set_current_term, set_voted_for, set_last_applied_lsn}
use wolf_scale.State.Membership.{
  ClusterMembership, NodeState, NodeStatus, set_leader, record_heartbeat, quorum_size, peers,
  get_node, get_self, is_active, is_dropped, is_offline, is_synthetic,
}
use wolf_scale.Replication.Protocol.{
  Message, heartbeat, append_entries, sync_response, vote_response,
}

pub record Log (W : Type 0) : Type 0 where
  pub append : LogEntry → W → Result ℕ × W
  pub current_lsn : W → ℕ
  pub refresh : W → W
  pub read_batch : ℕ → ℕ → W → Result (List WalEntry)
  pub get : ℕ → W → Result (Option WalEntry)

pub record PendingWrite : Type 0 where
  pub lsn : ℕ
  pub acks : ℕ
  pub required_acks : ℕ

pub record LeaderNode (W : Type 0) : Type 0 where
  pub node_id : String
  pub wal : W
  pub state_tracker : StateTracker
  pub cluster : ClusterMembership
  pub max_batch_entries : ℕ
  pub term : ℕ
  pub commit_lsn : ℕ
  pub pending_writes : List (ℕ × PendingWrite)
  pub answered : List ℕ
  pub next_lsn : Dict ℕ
  pub match_lsn : Dict ℕ
  pub sent : List (String × Message)
  pub closed : Bool
  pub pending_replication : Dict (ℕ × ℕ)
  pub shutdown : Bool

unfoldable pub insert_sorted : ℕ → List ℕ → List ℕ
insert_sorted n [] = n ∷ []
insert_sorted n (m ∷ ms) = if leb n m then n ∷ m ∷ ms else m ∷ insert_sorted n ms

-- `sort_unstable`
unfoldable pub sort : List ℕ → List ℕ
unfolding insert_sorted
sort [] = []
sort (n ∷ ns) = insert_sorted n (sort ns)

-- The LSN that `check_commit_progress` finds, if there are as many as a quorum.
unfoldable pub quorum_lsn : ℕ → List ℕ → Option ℕ
quorum_lsn quorum lsns =
    if leb quorum (length lsns) then get_elem? (sort lsns) (length lsns - quorum) else none

abbrev pub drop_lsn : ℕ → List (ℕ × PendingWrite) → List (ℕ × PendingWrite)
drop_lsn lsn ps = keep (λ p. not (p.0 == lsn)) ps

pub data WriteStart : Type 0 where
  committed waiting : (lsn : ℕ) → WriteStart

unfoldable pub init_lsns : ℕ → List NodeState → Dict ℕ → Dict ℕ
init_lsns v [] m = m
init_lsns v (p ∷ ps) m = init_lsns v ps (insert p.id v m)

unfoldable pub heartbeats : Message → List NodeState → List (String × Message)
heartbeats msg [] = []
heartbeats msg (p ∷ ps) =
    let rest = heartbeats msg ps in
    if not (is_dropped p.status) then (p.address, msg) ∷ rest else rest

unfoldable pub find_priority : String → ℕ → List NodeState → Option String
find_priority id lsn [] = none
find_priority id lsn (p ∷ ps) =
    if not (is_synthetic p.id) && is_active p.status && str_lt p.id id && leb lsn p.last_applied_lsn
    then some p.id
    else find_priority id lsn ps

-- Whether a peer that was sent entries up to `pending` at `sent_at` is waited for.
unfoldable pub is_waiting : ℕ → ℕ → ℕ → Option (ℕ × ℕ) → Bool
is_waiting now fresh_lsn old_lsn none = false
is_waiting now fresh_lsn old_lsn (some (pending, sent_at)) =
    if leb pending fresh_lsn || ltb fresh_lsn old_lsn then false else ltb (now - sent_at) 5000

abbrev pub lsn_or : ℕ → Option NodeState → ℕ
lsn_or d none = d
lsn_or d (some n) = n.last_applied_lsn

abbrev pub previous : Result (Option WalEntry) → ℕ × ℕ
previous (ok (some e)) = (e.header.lsn, e.header.term)
previous _ = (0, 0)

module _ {W : Type 0} (log : Log W) where
  abbrev pub post : List (String × Message) → LeaderNode W → LeaderNode W
  post ms s = if s.closed then s else record s { sent = s.sent ++ ms }

  -- A call of the tracker.
  abbrev pub on_tracker : Act StateTracker (Unit {0}) → Act (LeaderNode W) (Unit {0})
  on_tracker m s = let (r, t) = m s.state_tracker in (r, record s { state_tracker = t })

  unfoldable pub advance_commit_lsn : ℕ → Act (LeaderNode W) (Unit {0})
  advance_commit_lsn lsn = do
    modify (λ s. record s { commit_lsn = lsn })
    on_tracker (set_last_applied_lsn lsn)

  abbrev pub all_lsns : LeaderNode W → List ℕ
  all_lsns s = values s.match_lsn ++ (log.current_lsn s.wal ∷ [])

  unfoldable pub check_commit_progress : Act (LeaderNode W) (Unit {0})
  check_commit_progress s = elim (quorum_lsn (quorum_size s.cluster) (all_lsns s)) [
    | none ↦ (ok tt, s)
    | some new_commit ↦
        if ltb s.commit_lsn new_commit then advance_commit_lsn new_commit s else (ok tt, s)
  ]

  abbrev pub acks_of : ℕ → LeaderNode W → ℕ
  acks_of lsn s = 1 + count (λ m. leb lsn m) (values s.match_lsn)

  abbrev pub is_acked : ℕ → LeaderNode W → ℕ × PendingWrite → Bool
  is_acked up_to_lsn s p = leb p.0 up_to_lsn && leb (quorum_size s.cluster) (acks_of p.0 s)

  unfoldable pub acknowledge_writes : ℕ → LeaderNode W → LeaderNode W
  acknowledge_writes up_to_lsn s = record s {
    pending_writes = keep (λ p. not (is_acked up_to_lsn s p)) s.pending_writes;
    answered = s.answered ++ map (λ p. p.0) (keep (is_acked up_to_lsn s) s.pending_writes);
  }

  abbrev pub lower : ℕ → ℕ
  lower next = if ltb 1 next then next - 1 else next

  abbrev pub accepted : ℕ → String → ℕ → LeaderNode W → LeaderNode W
  accepted now node_id match s = record s {
    pending_replication = remove node_id s.pending_replication;
    match_lsn = insert node_id match s.match_lsn;
    next_lsn = insert node_id (match + 1) s.next_lsn;
    cluster = record_heartbeat now node_id match s.cluster;
  }

  abbrev pub rejected : String → LeaderNode W → LeaderNode W
  rejected node_id s = record s {
    pending_replication = remove node_id s.pending_replication;
    next_lsn = elim (lookup node_id s.next_lsn) [
      | none ↦ s.next_lsn
      | some next ↦ insert node_id (lower next) s.next_lsn
    ];
  }

  unfoldable pub handle_append_response : ℕ → String → ℕ → Bool → ℕ → Act (LeaderNode W) (Unit {0})
  handle_append_response now node_id term success match s =
      if ltb s.term term
      then (err (replication "Stale leader"), s)
      else if success
      then (do
        modify (accepted now node_id match)
        check_commit_progress
        modify (acknowledge_writes match))
          s
      else (ok tt, rejected node_id s)

  abbrev more_behind : ℕ → Option WalEntry → Bool
  more_behind last none = false
  more_behind last (some e) = ltb e.header.lsn last

  abbrev sent_up_to : String → Option WalEntry → LeaderNode W → LeaderNode W
  sent_up_to node_id none s = s
  sent_up_to node_id (some e) s = record s {
    next_lsn = insert node_id (e.header.lsn + 1) s.next_lsn;
  }

  unfoldable pub handle_sync_request : String → ℕ → ℕ → Act (LeaderNode W) Message
  handle_sync_request node_id from_lsn max_entries s =
      elim (log.read_batch from_lsn max_entries s.wal) [
        | err e ↦ (err e, s)
        | ok entries ↦ (
          ok (sync_response from_lsn entries (more_behind (log.current_lsn s.wal) (last? entries))),
          sent_up_to node_id (last? entries) s,
        )
      ]

  unfoldable pub initialize_follower_state : LeaderNode W → LeaderNode W
  initialize_follower_state s = record s {
    next_lsn = init_lsns (log.current_lsn s.wal + 1) (peers s.cluster) s.next_lsn;
    match_lsn = init_lsns 0 (peers s.cluster) s.match_lsn;
  }

  unfoldable pub send_heartbeats : LeaderNode W → LeaderNode W
  send_heartbeats s =
      let others = map (λ p. (p.id, p.address)) (peers s.cluster) in
      let members : List (String × String) = elim (get_node s.node_id s.cluster) [
        | none ↦ others
        | some n ↦ others ++ ((n.id, n.address) ∷ [])
      ] in
      post (heartbeats (heartbeat s.term s.node_id s.commit_lsn members) (peers s.cluster)) s

  -- The request that carries `entries` to a peer, and the note that it is under way.
  abbrev pub dispatch : ℕ → NodeState → ℕ → List WalEntry → WalEntry → LeaderNode W → LeaderNode W
  dispatch now p next entries final s =
      let (prev_lsn, prev_term) =
        if ltb 1 next then previous (log.get (next - 1) s.wal) else (0, 0) in
      post
        ((p.address, append_entries s.term s.node_id prev_lsn prev_term entries s.commit_lsn) ∷ [])
        (record s {
          pending_replication = insert p.id (final.header.lsn, now) s.pending_replication;
        })

  abbrev pub send_up_to :
      ℕ → NodeState → ℕ → List WalEntry → Option WalEntry → LeaderNode W → LeaderNode W
  send_up_to now p next entries none s = s
  send_up_to now p next entries (some final) s = dispatch now p next entries final s

  abbrev pub send_batch : ℕ → NodeState → ℕ → Result (List WalEntry) → LeaderNode W → LeaderNode W
  send_batch now p next (err e) s = s
  send_batch now p next (ok entries) s = send_up_to now p next entries (last? entries) s

  -- One round of the loop of `replicate_to_followers`.
  unfoldable pub replicate_to : ℕ → NodeState → LeaderNode W → LeaderNode W
  replicate_to now p s =
      let lsn = lsn_or p.last_applied_lsn (get_node p.id s.cluster) in
      if is_dropped p.status || is_offline p.status
      then s
      else if is_waiting now lsn p.last_applied_lsn (lookup p.id s.pending_replication)
      then s
      else send_batch now p (lsn + 1) (log.read_batch (lsn + 1) s.max_batch_entries s.wal)
          (record s { pending_replication = remove p.id s.pending_replication })

  unfoldable pub replicate_all : ℕ → List NodeState → LeaderNode W → LeaderNode W
  replicate_all now [] s = s
  replicate_all now (p ∷ ps) s = replicate_all now ps (replicate_to now p s)

  abbrev pub is_empty : List NodeState → Bool
  is_empty [] = true
  is_empty (p ∷ ps) = false

  unfoldable pub replicate_to_followers : ℕ → LeaderNode W → LeaderNode W
  replicate_to_followers now s =
      let others = peers s.cluster in
      if is_empty others then s else replicate_all now others (record s { wal = log.refresh s.wal })

  abbrev await_quorum : ℕ → ℕ → Act (LeaderNode W) WriteStart
  await_quorum now lsn = do
    quorum ← gets (λ s. quorum_size s.cluster)
    modify (λ s. record s {
      pending_writes =
          drop_lsn lsn s.pending_writes
          ++ ((lsn, record { lsn = lsn; acks = 1; required_acks = quorum }) ∷ []);
    })
    modify (replicate_to_followers now)
    pure (waiting lsn)

  abbrev commit_now : ℕ → Act (LeaderNode W) WriteStart
  commit_now lsn = do advance_commit_lsn lsn; pure (committed lsn)

  abbrev append_log : LogEntry → Act (LeaderNode W) ℕ
  append_log entry s = let (r, w) = log.append entry s.wal in (r, record s { wal = w })

  unfoldable pub begin_write : ℕ → LogEntry → Act (LeaderNode W) WriteStart
  begin_write now entry = do
    lsn ← append_log entry
    modify (λ s. record s { cluster = record_heartbeat now s.node_id lsn s.cluster })
    quorum ← gets (λ s. quorum_size s.cluster)
    if leb quorum 1 then commit_now lsn else await_quorum now lsn

  -- `Replication timeout`
  unfoldable pub abandon_write : ℕ → LeaderNode W → LeaderNode W
  abandon_write lsn s = record s { pending_writes = drop_lsn lsn s.pending_writes }

  -- `none` is the panic of `get_self`.
  unfoldable pub check_for_priority_yield : LeaderNode W → Option (Option String)
  check_for_priority_yield s = elim (get_self s.cluster) [
    | none ↦ none
    | some n ↦ some (find_priority s.node_id n.last_applied_lsn (peers s.cluster))
  ]

  -- What `start` does before its loop.
  unfoldable pub start_up : ℕ → LeaderNode W → LeaderNode W
  start_up now s =
      let seated = set_leader now s.node_id s.cluster in
      let lsn = log.current_lsn s.wal in
      let placed = if ltb 0 lsn then record_heartbeat now s.node_id lsn seated else seated in
      initialize_follower_state (record s { cluster = placed })

  abbrev lend : Bool → String → Act (LeaderNode W) (Unit {0})
  lend true candidate_id = on_tracker (set_voted_for (some candidate_id))
  lend false candidate_id = pure tt

  abbrev give_way : ℕ → String → ℕ → Act (LeaderNode W) (Message × Bool)
  give_way term candidate_id last_log_lsn = do
    modify (λ s. record s { term = term })
    on_tracker (set_current_term term)
    ours ← gets (λ s. s.commit_lsn)
    lend (leb ours last_log_lsn) candidate_id
    gets (λ s. (vote_response s.node_id term (leb ours last_log_lsn), true))

  unfoldable pub handle_vote_request : ℕ → String → ℕ → Act (LeaderNode W) (Message × Bool)
  handle_vote_request term candidate_id last_log_lsn s =
      if ltb s.term term
      then give_way term candidate_id last_log_lsn s
      else (ok (vote_response s.node_id s.term false, false), s)
