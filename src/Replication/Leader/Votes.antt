-- ===== src/Replication/Leader/Votes.antt =====
-- The votes of a leader in replication/leader.rs.
use wolf_scale.Base.{ℕ, ◌≤◌, String, ◌≡◌, false, arith, [], ltb, if◌then◌else◌}
use wolf_scale.Error.{ok}
use wolf_scale.Replication.Protocol.{vote_response}
use wolf_scale.State.Tracker.{execute, set_current_term, set_voted_for}
use wolf_scale.Replication.Leader.{Log, LeaderNode, handle_vote_request}

module _ {W : Type 0} (log : Log W) where
  -- A leader that has answered a vote request, its writes to the tracker succeeding, refuses the next
  -- request whose term is not above the first one's, whoever asks, with the higher of its term and the
  -- first request's, and does not step down for it.
  pub answers_term_once :
      (term term' : ℕ) (a b : String) (lsn lsn' : ℕ) (s : LeaderNode W)
      → s.state_tracker.faults ≡ []
      → term' ≤ term
      → (let s₁ = (handle_vote_request log term a lsn s).1 in
          (handle_vote_request log term' b lsn' s₁).0
          ≡ ok (vote_response s.node_id (if ltb s.term term then term else s.term) false, false))
  unfolding handle_vote_request set_current_term set_voted_for execute
  answers_term_once term term' a b lsn lsn' s calm h = ground arith
