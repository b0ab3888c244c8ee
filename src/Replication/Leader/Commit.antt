-- ===== src/Replication/Leader/Commit.antt =====
-- The commit LSN and the answers to writes of replication/leader.rs.
use wolf_scale.Base.{
  append-nil, ℕ, ◌+◌, ◌≤◌, String, ◌≡◌, refl, Bool, true, false, none, some, List, [], ◌∷◌, ◌++◌,
  arith, All, ltb, leb, if◌then◌else◌, keep, map, values, Bool-cases, Option-cases, ◌⊎◌, inl, inr,
}
use wolf_scale.Error.{Error, Result, ok, err}
use wolf_scale.State.Membership.{ClusterMembership, quorum_size}
use wolf_scale.State.Tracker.{execute, set_last_applied_lsn}
use wolf_scale.Replication.Leader.{
  Log, LeaderNode, PendingWrite, quorum_lsn, all_lsns, is_acked, check_commit_progress,
  advance_commit_lsn, acknowledge_writes, handle_append_response, accepted,
}
use wolf_scale.Replication.Leader.Sorting.{
  reached, quorum_lsn-reached, quorum_lsn_largest, quorum_lsn-none,
}

quorum_size-pos : (c : ClusterMembership) → 1 ≤ quorum_size c
unfolding quorum_size
quorum_size-pos c = omega arith

reached-snoc :
    (y n : ℕ) (ms : List ℕ) → reached y (ms ++ (n ∷ [])) ≡ reached y ms + (if leb y n then 1 else 0)
reached-snoc y n [] = ground arith
reached-snoc y n (m ∷ ms) = ground (arith, reached-snoc y n ms)

Result-cases : (r : Result (Unit {0})) → ((u : Unit {0}) × (r ≡ ok u)) ⊎ ((e : Error) × (r ≡ err e))
Result-cases (ok u) = inl (u, refl)
Result-cases (err e) = inr (e, refl)

module _ {W : Type 0} (log : Log W) where
  -- An LSN that a quorum has reached, this node's log counted.
  abbrev pub HasQuorum : LeaderNode W → ℕ → Type 0
  HasQuorum s y = quorum_size s.cluster ≤ reached y (all_lsns log s)

  commit_found :
      (x : ℕ) (s : LeaderNode W)
      → quorum_lsn (quorum_size s.cluster) (all_lsns log s) ≡ some x
      → (check_commit_progress log s).1.commit_lsn
        ≡ (if ltb s.commit_lsn x then x else s.commit_lsn)
  unfolding check_commit_progress advance_commit_lsn set_last_applied_lsn execute
  commit_found x s found = ground (arith, found)

  commit_none :
      (s : LeaderNode W)
      → quorum_lsn (quorum_size s.cluster) (all_lsns log s) ≡ none
      → check_commit_progress log s ≡ (ok tt, s)
  unfolding check_commit_progress
  commit_none s none_found = ground (arith, none_found)

  -- The commit LSN never falls; it moves only to an LSN that a quorum has reached, and no LSN that a
  -- quorum has reached is above it, also when the write to the tracker fails.
  pub commit_follows_quorum :
      (s : LeaderNode W)
      → (s.commit_lsn ≤ (check_commit_progress log s).1.commit_lsn)
        × (((check_commit_progress log s).1.commit_lsn ≡ s.commit_lsn)
            ⊎ HasQuorum s (check_commit_progress log s).1.commit_lsn)
        × ((y : ℕ) → HasQuorum s y → y ≤ (check_commit_progress log s).1.commit_lsn)
  commit_follows_quorum s =
      let q = quorum_size s.cluster in
      let ns = all_lsns log s in
      let pos = quorum_size-pos s.cluster in
      elim (Option-cases (quorum_lsn q ns)) [
        | inl gone ↦ rw (commit_none s gone) (
          omega arith,
          inl refl,
          λ y h. absurd (omega (arith, h, quorum_lsn-none q y ns pos gone)),
        )
        | inr (x, found) ↦ rw (commit_found x s found) (
          ground arith,
          ground (arith, quorum_lsn-reached q x ns pos found),
          λ y h. ground (arith, quorum_lsn_largest q x y ns pos found h),
        )
      ]

  commit_keeps :
      (s : LeaderNode W)
      → ((check_commit_progress log s).1.cluster ≡ s.cluster)
        × ((check_commit_progress log s).1.match_lsn ≡ s.match_lsn)
        × ((check_commit_progress log s).1.wal ≡ s.wal)
        × ((check_commit_progress log s).1.answered ≡ s.answered)
        × ((check_commit_progress log s).1.pending_writes ≡ s.pending_writes)
  unfolding check_commit_progress advance_commit_lsn set_last_applied_lsn execute
  commit_keeps s =
      ground (arith, Option-cases (quorum_lsn (quorum_size s.cluster) (all_lsns log s)))

  -- The writes that `acknowledge_writes` answers.
  abbrev news : ℕ → LeaderNode W → List (ℕ × PendingWrite) → List ℕ
  news up_to s ps = map (λ p. p.0) (keep (is_acked log up_to s) ps)

  -- A write is in the leader's own log and has been reached by a quorum.
  abbrev pub IsReplicated : LeaderNode W → ℕ → Type 0
  IsReplicated s lsn = HasQuorum s lsn × (lsn ≤ s.commit_lsn)

  news-IsReplicated :
      (up_to : ℕ) (s : LeaderNode W) (ps : List (ℕ × PendingWrite))
      → All (λ p. p.0 ≤ log.current_lsn s.wal) ps
      → ((y : ℕ) → HasQuorum s y → y ≤ s.commit_lsn)
      → All (IsReplicated s) (news up_to s ps)
  news-IsReplicated up_to s [] held top = tt
  news-IsReplicated up_to s (p ∷ ps) (here, held) top =
      let rest = news-IsReplicated up_to s ps held top in
      elim (Bool-cases (is_acked log up_to s p)) [
        | inr not_yet ↦ rw not_yet rest
        | inl acked ↦
            let q : HasQuorum s p.0 =
              ground (
                arith,
                acked,
                here,
                reached-snoc p.0 (log.current_lsn s.wal) (values s.match_lsn),
              ) in
            rw acked ((q, top p.0 q), rest)
      ]

  response_done :
      (now : ℕ) (id : String) (term match : ℕ) (s : LeaderNode W)
      → ltb s.term term ≡ false
      → (check_commit_progress log (accepted log now id match s)).0 ≡ ok tt
      → handle_append_response log now id term true match s ≡ (
        ok tt,
        acknowledge_writes log match (check_commit_progress log (accepted log now id match s)).1,
      )
  unfolding handle_append_response
  response_done now id term match s current fine = ground (arith, current, fine)

  response_failed :
      (now : ℕ) (id : String) (term match : ℕ) (s : LeaderNode W) (e : Error)
      → ltb s.term term ≡ false
      → (check_commit_progress log (accepted log now id match s)).0 ≡ err e
      → (handle_append_response log now id term true match s).1
        ≡ (check_commit_progress log (accepted log now id match s)).1
  unfolding handle_append_response
  response_failed now id term match s e current failed = ground (arith, current, failed)

  response_idle :
      (now : ℕ) (id : String) (term match : ℕ) (success : Bool) (s : LeaderNode W)
      → (ltb s.term term ≡ true) ⊎ (success ≡ false)
      → (handle_append_response log now id term success match s).1.answered ≡ s.answered
  unfolding handle_append_response
  response_idle now id term match success s why = ground (arith, why)

  acknowledge_writes-IsReplicated :
      (up_to : ℕ) (s : LeaderNode W)
      → All (λ p. p.0 ≤ log.current_lsn s.wal) s.pending_writes
      → ((y : ℕ) → HasQuorum s y → y ≤ s.commit_lsn)
      → (ns : List ℕ) × ((acknowledge_writes log up_to s).answered ≡ s.answered ++ ns)
        × All (IsReplicated (acknowledge_writes log up_to s)) ns
  unfolding acknowledge_writes
  acknowledge_writes-IsReplicated up_to s held top =
      (news up_to s s.pending_writes, refl, news-IsReplicated up_to s s.pending_writes held top)

  -- Every write that an answer of a follower lets the leader acknowledge, where the pending writes are
  -- in the leader's log, has been reached by a quorum, the log counted, and is committed.
  pub answered_writes-IsReplicated :
      (now : ℕ) (id : String) (term match : ℕ) (success : Bool) (s : LeaderNode W)
      → All (λ p. p.0 ≤ log.current_lsn s.wal) s.pending_writes
      → (ns : List ℕ) × ((handle_append_response log now id term success match s).1.answered
          ≡ s.answered ++ ns)
        × All (IsReplicated (handle_append_response log now id term success match s).1) ns
  answered_writes-IsReplicated now id term match false s held =
      ([], rw append-nil (response_idle now id term match false s (inr refl)), tt)
  answered_writes-IsReplicated now id term match true s held = elim (Bool-cases (ltb s.term term)) [
    | inl stale ↦ ([], rw append-nil (response_idle now id term match true s (inl stale)), tt)
    | inr current ↦
        let s₁ = accepted log now id match s in
        let (nodes, matches, wal, same, pending) = commit_keeps s₁ in
        let (_, _, top) = commit_follows_quorum s₁ in
        elim (Result-cases (check_commit_progress log s₁).0) [
          | inl (_, fine) ↦
              let s₂ = (check_commit_progress log s₁).1 in
              let (ns, grown, all) =
                acknowledge_writes-IsReplicated match s₂ (rw (pending, wal) held)
                  (rw (nodes, matches, wal) top) in
              rw (response_done now id term match s current fine) (ns, rw same at grown, all)
          | inr (e, failed) ↦
              ([], rw (append-nil, response_failed now id term match s e current failed) same, tt)
        ]
  ]
