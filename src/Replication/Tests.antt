-- ===== src/Replication/Tests.antt =====
-- The theorems on replication/ at a database that lists the entries it executed and refuses `Noop`,
-- and at a log that is a list.
mod Leading
use wolf_scale.Base.{
  ℕ, ◌^◌, ◌≤◌, ◌<◌, String, ◌≡◌, refl, Bool, true, false, Option, none, some, List, [], ◌∷◌, ◌++◌,
  ◌⊎◌, inl, inr, arith,
}
use wolf_scale.Error.{Result, ok, err, internal}
use wolf_scale.Wal.Entry.{WalEntry, LogEntry, noop, drop_table, drop_index}
use wolf_scale.State.Membership
use wolf_scale.State.Tracker
use wolf_scale.State.Election
use wolf_scale.Replication.Protocol.{Message, append_entries_response}
use wolf_scale.Replication.Follower.{
  FollowerNode, ReplicationBatch, handle_append_entries, handle_sync_response,
  process_batch_background,
}
use wolf_scale.Replication.Follower
use wolf_scale.Replication.Follower.Apply.{
  fresh, reach, Ascending, replay, end, append_replays, append_refused, redelivery_executes_nothing,
  Append, append_all,
}
use wolf_scale.Replication.Follower.Batch.{
  acks_to, AscendsTo, batch_replays, sync_replays, sync_stops, Succeeds,
}

abbrev Database : Type 0
Database = List LogEntry

abbrev execute_entry : LogEntry → Database → Result (Unit {0}) × Database
execute_entry noop db = (err (internal "refused"), db)
execute_entry e db = (ok tt, db ++ (e ∷ []))

abbrev entry_at : ℕ → LogEntry → WalEntry
entry_at lsn e = record {
  header = record {
    lsn = lsn;
    term = 1;
    created = 0;
    origin_node = "l";
    checksum = 0;
    body_size = 0;
    compressed = false;
  };
  entry = e;
}

abbrev entries : List WalEntry
entries = entry_at 1 (drop_table "t") ∷ entry_at 2 noop ∷ entry_at 3 (drop_table "u") ∷ []

abbrev follower : FollowerNode Database
follower =
    Follower.new (record { now = 0; timeout = 50 }) "f" (Membership.new 0 "f" "f:1" 1000 2000)
      (Tracker.new []) [] 10 500 false false

append_replays_example :
    (s' : FollowerNode Database) × (handle_append_entries execute_entry 5 2 "l" 0 entries follower
      ≡ (ok (append_entries_response "f" 2 true (end follower entries)), s'))
    × (s'.executor ≡ replay execute_entry (fresh 0 entries) [])
    × (s'.last_applied_lsn ≡ end follower entries)
unfolding Election.new Follower.is_gap
append_replays_example =
    append_replays execute_entry 5 2 "l" 0 entries follower refl (omega arith) refl

-- A request that comes in between
abbrev between : List Append
between =
    record { now = 5; term = 2; leader_id = "l"; prev_lsn = 9; entries = entry_at 9 noop ∷ [] } ∷ []

redelivery_executes_nothing_example :
    (let s₁ =
        append_all execute_entry between
          (handle_append_entries execute_entry 5 2 "l" 0 entries follower).1 in
      (handle_append_entries execute_entry 6 2 "l" 0
        (entry_at 1 (drop_table "t") ∷ [])
        s₁).1.executor
      ≡ s₁.executor)
unfolding Ascending Election.new Follower.is_gap
redelivery_executes_nothing_example =
    redelivery_executes_nothing execute_entry 5 6 2 2 "l" "l" 0 0 entries
      (entry_at 1 (drop_table "t") ∷ []) between follower refl (omega arith) refl
      (omega arith, (omega arith, (omega arith, tt))) (inl refl, tt)

abbrev batch : ReplicationBatch
batch = record { entries = entries; term = 2; leader_id = "l"; leader_address = "l:1" }

-- The clock ticks while the second and the third entry are executed.
abbrev ticks : List Bool
ticks = false ∷ true ∷ true ∷ []

batch_replays_example :
    let s' = process_batch_background execute_entry 7 batch ticks follower in
    (s'.executor ≡ replay execute_entry (fresh 0 entries) [])
    × (s'.last_applied_lsn ≡ end follower entries)
    × ((lsns : List ℕ) × (s'.sent ≡ acks_to batch "f" (lsns ++ (end follower entries ∷ [])))
        × AscendsTo 0 (end follower entries) lsns)
unfolding Ascending
batch_replays_example =
    batch_replays execute_entry 7 batch ticks follower
      (omega arith, (omega arith, (omega arith, tt))) refl

abbrev good : List WalEntry
good = entry_at 1 (drop_table "t") ∷ []
