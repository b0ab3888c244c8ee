-- ===== src/State/Membership/Run.antt =====
-- Histories of state/membership.rs: any sequence of the operations that change the map.
use wolf_scale.Base.{ℕ, String, ◌≡◌, ◌≢◌, refl, false, true, List, [], ◌∷◌}
use wolf_scale.State.Membership.{
  ClusterMembership, is_synthetic, new, add_peer, remove_peer, record_heartbeat, check_timeouts,
  set_leader, update_replication_lag, mark_rejoined, update_node, NodeState, is_leader,
}
use wolf_scale.State.Membership.Valid.{
  IsValid, new-IsValid, add_peer-IsValid, remove_peer-IsValid, record_heartbeat-IsValid,
  update_replication_lag-IsValid, mark_rejoined-IsValid, update_node-IsValid,
}
use wolf_scale.State.Membership.Timeouts.{check_timeouts-IsValid}
use wolf_scale.State.Membership.Leader.{set_leader-IsValid}

-- One call, with the clock's value where the code reads the clock.
pub data Call : Type 0 where
  adds : ℕ → String → String → Call
  removes : String → Call
  hears : ℕ → String → ℕ → Call
  sweeps : ℕ → Call
  seats : ℕ → String → Call
  measures : ℕ → Call
  rejoins : ℕ → String → Call
  updates : String → (NodeState → NodeState) → Call

unfoldable pub call : Call → ClusterMembership → ClusterMembership
call (adds now id address) c = add_peer now id address c
call (removes id) c = (remove_peer id c).0
call (hears now id lsn) c = record_heartbeat now id lsn c
call (sweeps now) c = (check_timeouts now c).0
call (seats now id) c = set_leader now id c
call (measures lsn) c = update_replication_lag lsn c
call (rejoins now id) c = mark_rejoined now id c
call (updates id f) c = update_node id f c

unfoldable pub run : List Call → ClusterMembership → ClusterMembership
run [] c = c
run (x ∷ xs) c = run xs (call x c)

-- A change of a node that keeps its id and makes no leader
abbrev pub MakesNoLeader : (NodeState → NodeState) → Type 0
MakesNoLeader f =
    (n : NodeState) → ((f n).id ≡ n.id) × (is_leader (f n).role ≡ true → is_leader n.role ≡ true)

-- No call removes this node from its own map, and update_node keeps ids and makes no leader.
abbrev pub Spares : String → Call → Type 0
Spares self (removes id) = id ≢ self
Spares self (updates id f) = MakesNoLeader f
Spares self _ = Unit

abbrev pub AllSpare : String → List Call → Type 0
AllSpare self [] = Unit
AllSpare self (x ∷ xs) = Spares self x × AllSpare self xs

call-node_id : (x : Call) (c : ClusterMembership) → (call x c).node_id ≡ c.node_id
unfolding call add_peer remove_peer record_heartbeat check_timeouts set_leader
    update_replication_lag mark_rejoined update_node
call-node_id (adds now id address) c = refl
call-node_id (removes id) c = refl
call-node_id (hears now id lsn) c = refl
call-node_id (sweeps now) c = refl
call-node_id (seats now id) c = refl
call-node_id (measures lsn) c = refl
call-node_id (rejoins now id) c = refl
call-node_id (updates id f) c = refl

call-IsValid :
    (x : Call) (c : ClusterMembership)
    → is_synthetic c.node_id ≡ false
    → Spares c.node_id x
    → IsValid c
    → IsValid (call x c)
unfolding call
call-IsValid (adds now id address) c real ok v = add_peer-IsValid now id address c real v
call-IsValid (removes id) c real ok v = remove_peer-IsValid id c ok v
call-IsValid (hears now id lsn) c real ok v = record_heartbeat-IsValid now id lsn c v
call-IsValid (sweeps now) c real ok v = check_timeouts-IsValid now c v
call-IsValid (seats now id) c real ok v = set_leader-IsValid now id c v
call-IsValid (measures lsn) c real ok v = update_replication_lag-IsValid lsn c v
call-IsValid (rejoins now id) c real ok v = mark_rejoined-IsValid now id c v
call-IsValid (updates id f) c real ok v = update_node-IsValid id f c ok v

pub run_from-IsValid :
    (xs : List Call) (c : ClusterMembership) (self : String)
    → c.node_id ≡ self
    → is_synthetic self ≡ false
    → AllSpare self xs
    → IsValid c
    → IsValid (run xs c)
unfolding run
run_from-IsValid [] c self e real ok v = v
run_from-IsValid (x ∷ xs) c self e real ok v =
    run_from-IsValid xs (call x c) self (cc (call-node_id x c)) real ok.1
      (call-IsValid x c (cc e) (rw e ok.0) v)

-- Whatever sequence of calls that change the map follows the start, as long as none removes this node,
-- update_node keeps ids and makes no leader, and this node's id is not of the synthetic form: each key stands once and is its node's id, this node is there, and at
-- most one node has the role of leader.
pub run-IsValid :
    (now : ℕ) (id address : String) (hb el : ℕ) (xs : List Call)
    → is_synthetic id ≡ false
    → AllSpare id xs
    → IsValid (run xs (new now id address hb el))
run-IsValid now id address hb el xs real ok =
    run_from-IsValid xs (new now id address hb el) id (unfold new in refl) real ok
      (new-IsValid now id address hb el)
