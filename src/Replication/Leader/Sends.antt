-- ===== src/Replication/Leader/Sends.antt =====
-- Whom replication/leader.rs sends to, and to whom it gives up the lead.
use wolf_scale.Base.{
  All-append, append_assoc, append-nil, ℕ, ◌+◌, ◌≤◌, String, ◌≡◌, refl, ap, sym, ◌∙◌, Bool, true,
  false, not, ◌||◌, Option, none, some, List, [], ◌∷◌, ◌++◌, ◌⊎◌, inl, inr, arith, All, lookup,
  insert, remove, last?, str_lt, Bool-cases,
}
use wolf_scale.Error.{Result, ok, err}
use wolf_scale.Wal.Entry.{WalEntry}
use wolf_scale.State.Membership.{
  NodeState, peers, get_node, get_self, is_active, is_dropped, is_offline, is_synthetic,
}
use wolf_scale.Replication.Protocol.{Message}
use wolf_scale.Replication.Leader.{
  Log, LeaderNode, heartbeats, send_heartbeats, replicate_to, replicate_all, replicate_to_followers,
  is_waiting, find_priority, check_for_priority_yield, post, send_batch, send_up_to, is_empty,
  lsn_or,
}

-- The message goes to the address of one of the peers that `allowed` lets pass.
abbrev pub Reaches : (NodeState → Bool) → List NodeState → String × Message → Type 0
Reaches allowed [] m = ⊥
Reaches allowed (p ∷ ps) m = ((allowed p ≡ true) × (p.address ≡ m.0)) ⊎ Reaches allowed ps m

abbrev pub is_heard : NodeState → Bool
is_heard p = not (is_dropped p.status)

abbrev pub is_served : NodeState → Bool
is_served p = not (is_dropped p.status || is_offline p.status)

-- What `post` may have added.
abbrev pub Added :
    (String × Message → Type 0) → List (String × Message) → List (String × Message) → Type 0
Added P before after = (ms : List (String × Message)) × (after ≡ before ++ ms) × All P ms

All-weaken :
    (allowed : NodeState → Bool) (p : NodeState) (ps : List NodeState)
    (ms : List (String × Message))
    → All (Reaches allowed ps) ms
    → All (Reaches allowed (p ∷ ps)) ms
All-weaken allowed p ps [] a = tt
All-weaken allowed p ps (m ∷ ms) (h, a) = (inr h, All-weaken allowed p ps ms a)

heartbeats-Reaches :
    (msg : Message) (ps : List NodeState) → All (Reaches is_heard ps) (heartbeats msg ps)
unfolding heartbeats
heartbeats-Reaches msg [] = tt
heartbeats-Reaches msg (p ∷ ps) =
    let rest = All-weaken is_heard p ps (heartbeats msg ps) (heartbeats-Reaches msg ps) in
    elim (Bool-cases (is_heard p)) [
      | inl up ↦ rw up (inl (up, refl), rest)
      | inr down ↦ rw down rest
    ]

-- The leader gives way to one of the peers, if any, that is active, not synthetic, has a lower id, and
-- has applied as much.
abbrev pub Outranks : String → ℕ → List NodeState → String → Type 0
Outranks id lsn [] k = ⊥
Outranks id lsn (p ∷ ps) k =
    ((p.id ≡ k)
      × (str_lt k id ≡ true)
      × (is_active p.status ≡ true)
      × (is_synthetic p.id ≡ false)
      × (lsn ≤ p.last_applied_lsn))
    ⊎ Outranks id lsn ps k

find_priority-Outranks :
    (id : String) (lsn : ℕ) (ps : List NodeState) (k : String)
    → find_priority id lsn ps ≡ some k
    → Outranks id lsn ps k
unfolding find_priority
find_priority-Outranks id lsn [] k h = cc
find_priority-Outranks id lsn (p ∷ ps) k h = ground (arith, find_priority-Outranks id lsn ps k)

find_priority-none :
    (id : String) (lsn : ℕ) (ps : List NodeState) (k : String)
    → find_priority id lsn ps ≡ none
    → ¬ Outranks id lsn ps k
unfolding find_priority
find_priority-none id lsn [] k h r = r
find_priority-none id lsn (p ∷ ps) k h (inl (same, below, up, real, caught)) = ground arith
find_priority-none id lsn (p ∷ ps) k h (inr r) = find_priority-none id lsn ps k (ground arith) r

module _ {W : Type 0} (log : Log W) where
  posts-Added :
      (P : String × Message → Type 0) (ms : List (String × Message)) (s : LeaderNode W)
      → All P ms
      → Added P s.sent (post log ms s).sent
  posts-Added P ms s h = elim (Bool-cases s.closed) [
    | inl shut ↦ ([], ground (arith, shut, append-nil s.sent), tt)
    | inr free ↦ (ms, ground (arith, free), h)
  ]

  same-Added :
      (P : String × Message → Type 0) (xs ys : List (String × Message)) → ys ≡ xs → Added P xs ys
  same-Added P xs ys e = ([], e ∙ sym (append-nil xs), tt)

  send_up_to-Added :
      (P : String × Message → Type 0) (now : ℕ) (p : NodeState) (next : ℕ) (entries : List WalEntry)
      (final : Option WalEntry) (s : LeaderNode W)
      → ((m : String × Message) → p.address ≡ m.0 → P m)
      → Added P s.sent (send_up_to log now p next entries final s).sent
  send_up_to-Added P now p next entries none s h = same-Added P s.sent s.sent refl
  send_up_to-Added P now p next entries (some final) s h =
      posts-Added P (_ ∷ [])
        (record s {
          pending_replication = insert p.id (final.header.lsn, now) s.pending_replication;
        })
        (h _ refl, tt)

  send_batch-Added :
      (P : String × Message → Type 0) (now : ℕ) (p : NodeState) (next : ℕ)
      (r : Result (List WalEntry)) (s : LeaderNode W)
      → ((m : String × Message) → p.address ≡ m.0 → P m)
      → Added P s.sent (send_batch log now p next r s).sent
  send_batch-Added P now p next (err e) s h = same-Added P s.sent s.sent refl
  send_batch-Added P now p next (ok entries) s h =
      send_up_to-Added P now p next entries (last? entries) s h

  abbrev lsn_of : NodeState → LeaderNode W → ℕ
  lsn_of p s = lsn_or p.last_applied_lsn (get_node p.id s.cluster)

  abbrev cleared : NodeState → LeaderNode W → LeaderNode W
  cleared p s = record s { pending_replication = remove p.id s.pending_replication }

  replicate_to_cases :
      (now : ℕ) (p : NodeState) (s : LeaderNode W)
      → (replicate_to log now p s ≡ s)
        ⊎ ((is_served p ≡ true)
            × (replicate_to log now p s
                ≡ send_batch log now p
                    (lsn_of p s + 1)
                    (log.read_batch (lsn_of p s + 1) s.max_batch_entries s.wal)
                    (cleared p s)))
  unfolding replicate_to
  replicate_to_cases now p s = ground (
    arith,
    Bool-cases (is_waiting now (lsn_of p s) p.last_applied_lsn (lookup p.id s.pending_replication)),
  )

  replicate_to-Added :
      (P : String × Message → Type 0) (now : ℕ) (p : NodeState) (s : LeaderNode W)
      → (is_served p ≡ true → (m : String × Message) → p.address ≡ m.0 → P m)
      → Added P s.sent (replicate_to log now p s).sent
  replicate_to-Added P now p s h = elim (replicate_to_cases now p s) [
    | inl same ↦ same-Added P s.sent _ (ap (λ t. t.sent) same)
    | inr (served, e) ↦ rw e (
        send_batch-Added P now p (lsn_of p s + 1)
          (log.read_batch (lsn_of p s + 1) s.max_batch_entries s.wal) (cleared p s) (h served))
  ]

  replicate_all-Added :
      (P : String × Message → Type 0) (now : ℕ) (ps : List NodeState) (s : LeaderNode W)
      → ((m : String × Message) → Reaches is_served ps m → P m)
      → Added P s.sent (replicate_all log now ps s).sent
  unfolding replicate_all
  replicate_all-Added P now [] s h = same-Added P s.sent s.sent refl
  replicate_all-Added P now (p ∷ ps) s h =
      let (ms, e, all) = replicate_to-Added P now p s (λ served m at. h m (inl (served, at))) in
      let (ns, f, rest) =
        replicate_all-Added P now ps (replicate_to log now p s) (λ m r. h m (inr r)) in
      (ms ++ ns, f ∙ ap (λ xs. xs ++ ns) e ∙ append_assoc s.sent ms ns, All-append P ms ns all rest)

  -- Every message that a round of replication sends goes to the address of a peer that is neither
  -- dropped nor offline.
  pub replicates_to_served :
      (now : ℕ) (s : LeaderNode W)
      → Added (Reaches is_served (peers s.cluster)) s.sent (replicate_to_followers log now s).sent
  unfolding replicate_to_followers
  replicates_to_served now s = elim (Bool-cases (is_empty log (peers s.cluster))) [
    | inl alone ↦ same-Added _ s.sent _ (ground (arith, alone))
    | inr found ↦ rw found (
        replicate_all-Added (Reaches is_served (peers s.cluster)) now (peers s.cluster)
          (record s { wal = log.refresh s.wal }) (λ m r. r))
  ]

  -- Every heartbeat that the leader sends goes to the address of a peer that is not dropped.
  pub heartbeats_to_heard :
      (s : LeaderNode W)
      → Added (Reaches is_heard (peers s.cluster)) s.sent (send_heartbeats log s).sent
  unfolding send_heartbeats
  heartbeats_to_heard s =
      posts-Added (Reaches is_heard (peers s.cluster)) _ s (heartbeats-Reaches _ (peers s.cluster))

  -- The leader yields exactly when some peer outranks it: one that is active and not synthetic, has a
  -- lower id, and has applied as much; and it yields to such a peer.
  pub yields_to_outranking :
      (s : LeaderNode W) (n : NodeState)
      → get_self s.cluster ≡ some n
      → ((k : String)
          → check_for_priority_yield log s ≡ some (some k)
          → Outranks s.node_id n.last_applied_lsn (peers s.cluster) k)
        × (check_for_priority_yield log s ≡ some none
            → (k : String) → ¬ Outranks s.node_id n.last_applied_lsn (peers s.cluster) k)
  unfolding check_for_priority_yield
  yields_to_outranking s n found = (
    λ k h. find_priority-Outranks s.node_id n.last_applied_lsn (peers s.cluster) k (ground arith),
    λ h k. find_priority-none s.node_id n.last_applied_lsn (peers s.cluster) k (ground arith),
  )
