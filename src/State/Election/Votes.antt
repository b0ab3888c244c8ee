-- ===== src/State/Election/Votes.antt =====
-- Terms and votes of state/election.rs.
use wolf_scale.Base.{
  ℕ, ◌+◌, ◌≤◌, ◌<◌, String, ◌≡◌, refl, ◌∙◌, Bool, true, false, Option, none, some, List, [], ◌∷◌,
  ◌⊎◌, inl, inr, arith, str_eq_iff,
}
use wolf_scale.Error.{Result, ok}
use wolf_scale.State.Membership.{ClusterMembership}
use wolf_scale.State.Tracker.{StateTracker, execute, set_current_term, set_voted_for, upsert}
use wolf_scale.Replication.Protocol.{Message, vote_response}
use wolf_scale.State.Election.{
  ElectionCoordinator, Draw, new, handle_vote_request, handle_vote_response, start_election,
  step_down, decide_vote, become_leader, check_election_result, take_over, may_vote, count_vote,
}

-- What may happen to a coordinator.
pub data Event : Type 0 where
  asks : Draw → (term : ℕ) (candidate_id : String) (last_log_lsn last_log_term : ℕ) → Event
  answers : Draw → (voter_id : String) (term : ℕ) (vote_granted : Bool) → Event
  starts : Draw → Event

abbrev after :
    ElectionCoordinator → Option (Result (Unit {0}) × ElectionCoordinator) → ElectionCoordinator
after s none = s
after s (some (r, s')) = s'

-- The coordinator that an event leaves behind, whether its call returns or fails.
unfoldable pub step : Event → ElectionCoordinator → ElectionCoordinator
step (asks d term candidate_id lsn lterm) s =
    (handle_vote_request d term candidate_id lsn lterm s).1
step (answers d voter_id term vote_granted) s =
    (handle_vote_response d voter_id term vote_granted s).1
step (starts d) s = after s (start_election d s)

unfoldable pub run : List Event → ElectionCoordinator → ElectionCoordinator
run [] s = s
run (e ∷ es) s = run es (step e s)

abbrev vote_in : String → Result Message → Option (String × ℕ)
vote_in candidate_id (ok (vote_response node_id term true)) = some (candidate_id, term)
vote_in candidate_id _ = none

-- The candidate and the term of the vote that an event gives, if it gives one.
unfoldable pub vote_given : Event → ElectionCoordinator → Option (String × ℕ)
vote_given (asks d term candidate_id lsn lterm) s =
    vote_in candidate_id (handle_vote_request d term candidate_id lsn lterm s).0
vote_given (answers d voter_id term vote_granted) s = none
vote_given (starts d) s = none

step_down_term :
    (d : Draw) (t : ℕ) (s : ElectionCoordinator) → s.term < t → (step_down d t s).1.term ≡ t
unfolding step_down
step_down_term d t s h = ground arith

-- Past the term, or in it with that vote.
abbrev Bound : String → ℕ → ElectionCoordinator → Type 0
Bound a t s = (t < s.term) ⊎ ((s.term ≡ t) × (s.voted_for ≡ some a))

decide_vote-term :
    (d : Draw) (c : String) (l : ℕ) (s : ElectionCoordinator)
    → (decide_vote d c l s).1.term ≡ s.term
unfolding decide_vote
decide_vote-term d c l s = ground arith

decide_vote-keeps :
    (d : Draw) (c a : String) (l : ℕ) (s : ElectionCoordinator)
    → s.voted_for ≡ some a
    → (decide_vote d c l s).1.voted_for ≡ some a
unfolding decide_vote
decide_vote-keeps d c a l s h = ground (arith, str_eq_iff a c)

ask_stale :
    (d : Draw) (term : ℕ) (c : String) (l lt : ℕ) (s : ElectionCoordinator)
    → term < s.term
    → handle_vote_request d term c l lt s ≡ (ok (vote_response s.node_id s.term false), s)
unfolding handle_vote_request
ask_stale d term c l lt s h = ground arith

ask_equal :
    (d : Draw) (term : ℕ) (c : String) (l lt : ℕ) (s : ElectionCoordinator)
    → term ≡ s.term
    → handle_vote_request d term c l lt s ≡ decide_vote d c l s
unfolding handle_vote_request
ask_equal d term c l lt s h = ground arith

ask_higher_term :
    (d : Draw) (term : ℕ) (c : String) (l lt : ℕ) (s : ElectionCoordinator)
    → s.term < term
    → (handle_vote_request d term c l lt s).1.term ≡ term
unfolding handle_vote_request
ask_higher_term d term c l lt s h =
    ground (arith, step_down_term d term s h, decide_vote-term d c l (step_down d term s).1)

order_cases : (a b : ℕ) → (a < b) ⊎ (a ≡ b) ⊎ (b < a)
order_cases a b = ground arith

ask-Bound :
    (d : Draw) (term : ℕ) (c : String) (l lt : ℕ) (a : String) (t : ℕ) (s : ElectionCoordinator)
    → Bound a t s
    → Bound a t (handle_vote_request d term c l lt s).1
ask-Bound d term c l lt a t s h = elim (order_cases term s.term) [
  | inl below ↦ rw (ask_stale d term c l lt s below) h
  | inr (inl same) ↦
      rw (ask_equal d term c l lt s same)
        (ground (arith, h, decide_vote-term d c l s, decide_vote-keeps d c a l s))
  | inr (inr above) ↦ inl (ground (arith, h, ask_higher_term d term c l lt s above))
]

become_leader-same :
    (d : Draw) (s : ElectionCoordinator)
    → ((become_leader d s).1.term ≡ s.term) × ((become_leader d s).1.voted_for ≡ s.voted_for)
unfolding become_leader
become_leader-same d s = (refl, refl)

check_election_result-same :
    (d : Draw) (s : ElectionCoordinator)
    → ((check_election_result d s).1.term ≡ s.term)
      × ((check_election_result d s).1.voted_for ≡ s.voted_for)
unfolding check_election_result
check_election_result-same d s = ground (arith, become_leader-same d s)

answer-Bound :
    (d : Draw) (voter : String) (term : ℕ) (g : Bool) (a : String) (t : ℕ) (s : ElectionCoordinator)
    → Bound a t s
    → Bound a t (handle_vote_response d voter term g s).1
unfolding handle_vote_response
answer-Bound d voter term g a t s h = ground (
  arith,
  h,
  step_down_term d term s,
  check_election_result-same d s,
  check_election_result-same d (count_vote voter s),
)

take_over-term : (d : Draw) (s : ElectionCoordinator) → (take_over d s).1.term ≡ s.term + 1
unfolding take_over become_leader
take_over-term d s = ground arith

start-Bound :
    (d : Draw) (a : String) (t : ℕ) (s : ElectionCoordinator)
    → Bound a t s
    → Bound a t (after s (start_election d s))
unfolding start_election
start-Bound d a t s h = ground (arith, h, take_over-term d s)

step-Bound :
    (e : Event) (a : String) (t : ℕ) (s : ElectionCoordinator) → Bound a t s → Bound a t (step e s)
unfolding step
step-Bound (asks d term c l lt) a t s h = ask-Bound d term c l lt a t s h
step-Bound (answers d voter term g) a t s h = answer-Bound d voter term g a t s h
step-Bound (starts d) a t s h = start-Bound d a t s h

run-Bound :
    (es : List Event) (a : String) (t : ℕ) (s : ElectionCoordinator)
    → Bound a t s
    → Bound a t (run es s)
unfolding run
run-Bound [] a t s h = h
run-Bound (e ∷ es) a t s h = run-Bound es a t (step e s) (step-Bound e a t s h)

-- A vote that was given is the one that is held, in the term of the answer.
abbrev Gave : String → ℕ → ElectionCoordinator → ElectionCoordinator → Type 0
Gave a t s s' =
    (s'.term ≡ t)
    × (s'.voted_for ≡ some a)
    × (s.term ≤ t)
    × (s.term ≡ t → may_vote s.voted_for a ≡ true)

decide_vote-Gave :
    (d : Draw) (c : String) (l : ℕ) (a : String) (t : ℕ) (s : ElectionCoordinator)
    → vote_in c (decide_vote d c l s).0 ≡ some (a, t)
    → Gave a t s (decide_vote d c l s).1
unfolding decide_vote
decide_vote-Gave d c l a t s h = ground arith

continue_ask :
    (d : Draw) (term : ℕ) (c : String) (l lt : ℕ) (a : String) (t : ℕ) (s : ElectionCoordinator)
    → s.term < term
    → vote_in c (handle_vote_request d term c l lt s).0 ≡ some (a, t)
    → handle_vote_request d term c l lt s ≡ decide_vote d c l (step_down d term s).1
unfolding handle_vote_request
continue_ask d term c l lt a t s above h = ground arith

ask-Gave :
    (d : Draw) (term : ℕ) (c : String) (l lt : ℕ) (a : String) (t : ℕ) (s : ElectionCoordinator)
    → vote_in c (handle_vote_request d term c l lt s).0 ≡ some (a, t)
    → Gave a t s (handle_vote_request d term c l lt s).1
ask-Gave d term c l lt a t s h = elim (order_cases term s.term) [
  | inl below ↦ absurd (ground (arith, ask_stale d term c l lt s below))
  | inr (inl same) ↦
      let e = ask_equal d term c l lt s same in rw e (decide_vote-Gave d c l a t s (rw e at h))
  | inr (inr above) ↦
      let e = continue_ask d term c l lt a t s above h in
      let (now_at, holds, reached, _) =
        decide_vote-Gave d c l a t (step_down d term s).1 (rw e at h) in
      rw e (
        now_at,
        holds,
        omega (arith, reached, step_down_term d term s above),
        λ q. absurd (omega (arith, reached, step_down_term d term s above)),
      )
]

given-Gave :
    (e : Event) (a : String) (t : ℕ) (s : ElectionCoordinator)
    → vote_given e s ≡ some (a, t)
    → Gave a t s (step e s)
unfolding vote_given step
given-Gave (asks d term c l lt) a t s h = ask-Gave d term c l lt a t s h
given-Gave (answers d voter term g) a t s h = cc
given-Gave (starts d) a t s h = cc

-- A coordinator that has given its vote in a term gives it to no other candidate in that term,
-- whatever requests, answers and election timeouts come in between, and whichever of its writes to
-- the tracker fail.
pub one_vote_per_term :
    (s : ElectionCoordinator) (e e' : Event) (es : List Event) (a b : String) (t : ℕ)
    → vote_given e s ≡ some (a, t)
    → vote_given e' (run es (step e s)) ≡ some (b, t)
    → a ≡ b
one_vote_per_term s e e' es a b t first second =
    let (at_t, holds, _, _) = given-Gave e a t s first in
    let bound = run-Bound es a t (step e s) (inr (at_t, holds)) in
    let (_, _, reached, allowed) = given-Gave e' b t (run es (step e s)) second in
    ground (arith, bound, reached, allowed, str_eq_iff a b)

ask-term-le :
    (d : Draw) (term : ℕ) (c : String) (l lt : ℕ) (s : ElectionCoordinator)
    → s.term ≤ (handle_vote_request d term c l lt s).1.term
ask-term-le d term c l lt s = elim (order_cases term s.term) [
  | inl below ↦ rw (ask_stale d term c l lt s below) (omega arith)
  | inr (inl same) ↦ rw (ask_equal d term c l lt s same) (omega (arith, decide_vote-term d c l s))
  | inr (inr above) ↦ omega (arith, ask_higher_term d term c l lt s above)
]

step-term-le : (e : Event) (s : ElectionCoordinator) → s.term ≤ (step e s).term
unfolding step
step-term-le (asks d term c l lt) s = ask-term-le d term c l lt s
step-term-le (answers d voter term g) s =
    unfold handle_vote_response in
    ground (
      arith,
      step_down_term d term s,
      check_election_result-same d s,
      check_election_result-same d (count_vote voter s),
    )
step-term-le (starts d) s = unfold start_election in ground (arith, take_over-term d s)

-- No event lowers the term.
pub term_never_falls : (es : List Event) (s : ElectionCoordinator) → s.term ≤ (run es s).term
unfolding run
term_never_falls [] s = omega arith
term_never_falls (e ∷ es) s = omega (arith, step-term-le e s, term_never_falls es (step e s))

decide_vote-free :
    (d : Draw) (c : String) (l : ℕ) (s : ElectionCoordinator)
    → s.state_tracker.faults ≡ []
    → s.voted_for ≡ none
    → s.last_log_lsn ≡ 0
    → vote_in c (decide_vote d c l s).0 ≡ some (c, s.term)
unfolding decide_vote set_voted_for execute
decide_vote-free d c l s calm free zero_lsn = ground arith

abbrev IsFresh : ElectionCoordinator → Type 0
IsFresh s = (s.state_tracker.faults ≡ []) × (s.voted_for ≡ none) × (s.last_log_lsn ≡ 0)

raise_term-calm :
    (d : Draw) (t : ℕ) (s : ElectionCoordinator)
    → s.state_tracker.faults ≡ []
    → s.term < t
    → ((step_down d t s).0 ≡ ok tt)
      × ((step_down d t s).1.voted_for ≡ none)
      × ((step_down d t s).1.last_log_lsn ≡ s.last_log_lsn)
      × ((step_down d t s).1.state_tracker.faults ≡ [])
unfolding step_down set_current_term set_voted_for execute upsert
raise_term-calm d t s calm above = ground arith

ask_higher :
    (d : Draw) (term : ℕ) (c : String) (l lt : ℕ) (s : ElectionCoordinator)
    → s.term < term
    → (step_down d term s).0 ≡ ok tt
    → handle_vote_request d term c l lt s ≡ decide_vote d c l (step_down d term s).1
unfolding handle_vote_request
ask_higher d term c l lt s above h = ground arith

new-IsFresh :
    (d : Draw) (id : String) (cluster : ClusterMembership) (tracker : StateTracker)
    → tracker.faults ≡ []
    → IsFresh (new d id cluster tracker) × ((new d id cluster tracker).term ≡ 1)
unfolding new
new-IsFresh d id cluster tracker calm = ((calm, refl, refl), refl)

fresh_votes :
    (d : Draw) (c : String) (term l lt : ℕ) (s : ElectionCoordinator)
    → IsFresh s
    → s.term ≤ term
    → vote_in c (handle_vote_request d term c l lt s).0 ≡ some (c, term)
fresh_votes d c term l lt s (calm, free, start) h = elim (order_cases term s.term) [
  | inl below ↦ absurd (omega (arith, below, h))
  | inr (inl same) ↦
      rw (ask_equal d term c l lt s same)
        (ground (arith, decide_vote-free d c l s calm free start, same))
  | inr (inr above) ↦
      let (went, free', start', calm') = raise_term-calm d term s calm above in
      rw (ask_higher d term c l lt s above went) (
        ground (
          arith,
          decide_vote-free d c l (step_down d term s).1 calm' free' (start' ∙ start),
          step_down_term d term s above,
        ))
]

-- A coordinator that has just been started gives its vote to the first candidate that asks in any
-- term from 1 on, whatever vote and term its tracker holds: neither is read back.
pub restart_forgets_vote :
    (d d' : Draw) (id : String) (cluster : ClusterMembership) (tracker : StateTracker)
    (candidate_id : String) (term lsn lterm : ℕ)
    → tracker.faults ≡ []
    → 1 ≤ term
    → vote_given (asks d' term candidate_id lsn lterm) (new d id cluster tracker)
      ≡ some (candidate_id, term)
unfolding vote_given
restart_forgets_vote d d' id cluster tracker c term lsn lterm calm h =
    let (fresh, at_one) = new-IsFresh d id cluster tracker calm in
    fresh_votes d' c term lsn lterm (new d id cluster tracker) fresh (omega (arith, at_one, h))
