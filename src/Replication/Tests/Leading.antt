-- ===== src/Replication/Tests/Leading.antt =====
-- The theorems on the leader, at a log that is a list of entries.
use wolf_scale.Base.{
  ℕ, ◌+◌, ◌≤◌, ◌≡◌, true, false, some, List, [], ◌∷◌, ◌++◌, ◌⊎◌, arith, All, length, take, keep,
  first, ltb, ◌==◌,
}
use wolf_scale.Error.{ok}
use wolf_scale.Wal.Entry.{WalEntry, LogEntry, noop}
use wolf_scale.State.Membership
use wolf_scale.State.Membership.{NodeState, get_self, peers}
use wolf_scale.State.Tracker
use wolf_scale.Replication.Leader.{Log, LeaderNode, check_commit_progress, handle_append_response}
use wolf_scale.Replication.Leader.Commit.{
  commit_follows_quorum, answered_writes-IsReplicated, IsReplicated, HasQuorum,
}

abbrev entry_at : ℕ → LogEntry → WalEntry
entry_at lsn e = record {
  header = record {
    lsn = lsn;
    term = 1;
    created = 0;
    origin_node = "l";
    checksum = 0;
    body_size = 0;
    compressed = false;
  };
  entry = e;
}

abbrev list_log : Log (List WalEntry)
list_log = record {
  append = λ e w. (ok (length w + 1), w ++ (entry_at (length w + 1) e ∷ []));
  current_lsn = λ w. length w;
  refresh = λ w. w;
  read_batch = λ from_lsn max w. ok (take max (keep (λ e. ltb (from_lsn) (e.header.lsn + 1)) w));
  get = λ lsn w. ok (first (λ e. e.header.lsn == lsn) w);
}

abbrev here : NodeState
here = record (Membership.new_node 0 "l" "l:1") {
  status = Membership.active;
  role = Membership.leader;
  last_heartbeat = some 0;
}

abbrev other : NodeState
other = record (Membership.new_node 0 "a" "a:1") {
  status = Membership.active;
  last_heartbeat = some 0;
}

abbrev lost : NodeState
lost = record (Membership.new_node 0 "z" "z:1") {
  status = Membership.dropped;
  last_heartbeat = some 0;
}

abbrev leading : LeaderNode (List WalEntry)
leading = record {
  node_id = "l";
  wal = entry_at 1 noop ∷ entry_at 2 noop ∷ [];
  state_tracker = Tracker.new [];
  cluster = record {
    node_id = "l";
    nodes = ("l", here) ∷ ("a", other) ∷ ("z", lost) ∷ [];
    heartbeat_timeout = 1000;
    election_timeout = 2000;
  };
  max_batch_entries = 10;
  term = 1;
  commit_lsn = 0;
  pending_writes = (2, record { lsn = 2; acks = 1; required_acks = 2 }) ∷ [];
  answered = [];
  next_lsn = ("a", 3) ∷ ("z", 3) ∷ [];
  match_lsn = ("a", 0) ∷ ("z", 0) ∷ [];
  sent = [];
  closed = false;
  pending_replication = [];
  shutdown = false;
}

commit_follows_quorum_example :
    (leading.commit_lsn ≤ (check_commit_progress list_log leading).1.commit_lsn)
    × (((check_commit_progress list_log leading).1.commit_lsn ≡ leading.commit_lsn)
        ⊎ HasQuorum list_log leading (check_commit_progress list_log leading).1.commit_lsn)
    × ((y : ℕ)
        → HasQuorum list_log leading y
        → y ≤ (check_commit_progress list_log leading).1.commit_lsn)
commit_follows_quorum_example = commit_follows_quorum list_log leading

answered_writes-IsReplicated_example :
    (ns : List ℕ) × ((handle_append_response list_log 5 "a" 1 true 2 leading).1.answered ≡ [] ++ ns)
    × All (IsReplicated list_log (handle_append_response list_log 5 "a" 1 true 2 leading).1) ns
answered_writes-IsReplicated_example =
    answered_writes-IsReplicated list_log 5 "a" 1 2 true leading (omega arith, tt)
