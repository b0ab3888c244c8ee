-- ===== src/State/Election/Lowest.antt =====
-- Who may take over: the rule of the lowest id in state/election.rs.
use wolf_scale.Base.{
  ◌+◌, String, ◌≡◌, ◌≢◌, true, false, some, List, [], ◌∷◌, ◌⊎◌, inl, inr, arith, lookup, str_lt,
  str_lt_total, Bool-cases,
}
use wolf_scale.Error.{Result, ok}
use wolf_scale.State.Membership.{
  NodeState, peers, get_self, is_active, current_leader, set_leader, seat,
}
use wolf_scale.State.Membership.Valid.{IsValid}
use wolf_scale.State.Membership.Leader.{current_leader-set_leader}
use wolf_scale.State.Tracker.{set_current_term, execute}
use wolf_scale.State.Election.{
  ElectionCoordinator, Draw, counts, lowest_among, has_lowest_id, start_election, take_over,
  become_leader, leader,
}

-- `p` is in the list.
abbrev pub Has : NodeState → List NodeState → Type 0
Has p [] = ⊥
Has p (q ∷ qs) = (p ≡ q) ⊎ Has p qs

lowest_among-Has :
    (id : String) (p : NodeState) (ps : List NodeState)
    → lowest_among id ps ≡ true
    → Has p ps
    → counts p ≡ true
    → str_lt p.id id ≡ false
unfolding lowest_among
lowest_among-Has id p [] l h c = absurd h
lowest_among-Has id p (q ∷ qs) l (inl e) c = ground arith
lowest_among-Has id p (q ∷ qs) l (inr h) c = lowest_among-Has id p qs (ground arith) h c

-- Of two nodes with different ids that see each other in the cluster, neither of them synthetic,
-- dropped or offline to the other, one at most has the lowest id.
pub lowest_id_exclusive :
    (a b : ElectionCoordinator) (pa pb : NodeState)
    → a.node_id ≢ b.node_id
    → Has pb (peers a.cluster)
    → Has pa (peers b.cluster)
    → pb.id ≡ b.node_id
    → pa.id ≡ a.node_id
    → counts pb ≡ true
    → counts pa ≡ true
    → has_lowest_id a ≡ true
    → has_lowest_id b ≡ false
unfolding has_lowest_id
lowest_id_exclusive a b pa pb ne sees_b sees_a ib ia cb ca la =
    elim (Bool-cases (lowest_among b.node_id (peers b.cluster))) [
      | inr free ↦ free
      | inl lb ↦
          let not_b = lowest_among-Has a.node_id pb (peers a.cluster) la sees_b cb in
          let not_a = lowest_among-Has b.node_id pa (peers b.cluster) lb sees_a ca in
          elim (str_lt_total a.node_id b.node_id ne) [
            | inl below ↦ absurd (ground (arith, below, not_a, ia))
            | inr above ↦ absurd (ground (arith, above, not_b, ib))
          ]
    ]

take_over-calm :
    (d : Draw) (s : ElectionCoordinator)
    → s.state_tracker.faults ≡ []
    → ((take_over d s).0 ≡ ok tt)
      × ((take_over d s).1.state ≡ leader)
      × ((take_over d s).1.term ≡ s.term + 1)
      × ((take_over d s).1.cluster ≡ set_leader d.now s.node_id s.cluster)
unfolding take_over become_leader set_current_term execute
take_over-calm d s calm = ground arith

start_election-taken :
    (d : Draw) (s : ElectionCoordinator) (n : NodeState)
    → get_self s.cluster ≡ some n
    → is_active n.status ≡ true
    → has_lowest_id s ≡ true
    → start_election d s ≡ some (take_over d s)
unfolding start_election
start_election-taken d s n found up low = ground arith

-- An active node with the lowest id, in a valid cluster and with a tracker that works, is the
-- leader after one election: in its state, in the next term, and in the cluster.
pub start_election_wins :
    (d : Draw) (s : ElectionCoordinator) (n : NodeState)
    → IsValid s.cluster
    → s.cluster.node_id ≡ s.node_id
    → get_self s.cluster ≡ some n
    → is_active n.status ≡ true
    → has_lowest_id s ≡ true
    → s.state_tracker.faults ≡ []
    → (s' : ElectionCoordinator) × (start_election d s ≡ some (ok tt, s'))
      × (s'.state ≡ leader)
      × (s'.term ≡ s.term + 1)
      × (current_leader s'.cluster ≡ some (seat d.now n))
unfolding get_self
start_election_wins d s n v same found up low calm =
    let (fine, leads, next, seated) = take_over-calm d s calm in
    let here : lookup s.node_id s.cluster.nodes ≡ some n = rw same at found in
    (
      (take_over d s).1,
      ground (arith, start_election-taken d s n found up low, fine),
      leads,
      next,
      rw seated (current_leader-set_leader d.now s.node_id s.cluster n v here),
    )

-- A node that is not active, or that sees a lower id, does not become the leader by an election:
-- neither its state nor its term nor its cluster changes.
pub start_election_refused :
    (d : Draw) (s s' : ElectionCoordinator) (n : NodeState) (r : Result (Unit {0}))
    → get_self s.cluster ≡ some n
    → (is_active n.status ≡ false) ⊎ (has_lowest_id s ≡ false)
    → start_election d s ≡ some (r, s')
    → (s'.state ≡ s.state) × (s'.term ≡ s.term) × (s'.cluster ≡ s.cluster)
unfolding start_election
start_election_refused d s s' n r found why e = ground (arith, why)
