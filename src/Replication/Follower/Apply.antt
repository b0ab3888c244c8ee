-- ===== src/Replication/Follower/Apply.antt =====
-- The entries that a follower executes, in replication/follower.rs. The reference is `replay`: the
-- entries that are new to the follower, executed one after the other, whatever each of them returns.
use wolf_scale.Base.{
  All, Member, ap, ℕ, ◌≤◌, ◌<◌, String, ◌≡◌, refl, ◌∙◌, true, false, some, List, [], ◌∷◌, ◌⊎◌, inl,
  inr, arith, keep, ltb, leb, if◌then◌else◌, Bool-cases,
}
use wolf_scale.Error.{Error, Result, ok, err}
use wolf_scale.Wal.Entry.{WalEntry, LogEntry}
use wolf_scale.Replication.Protocol.{append_entries_response}
use wolf_scale.State.Tracker.{execute, set_current_term, set_last_applied_lsn}
use wolf_scale.Replication.Follower.{
  FollowerNode, lsn_of, apply_from, is_gap, check_and_apply, handle_append_entries, process_from,
  adopt_term, request_sync,
}

unfoldable pub fresh : ℕ → List WalEntry → List WalEntry
fresh last es = keep (λ e. ltb last (lsn_of e)) es

-- The LSN of the last entry, or `n`.
unfoldable pub reach : ℕ → List WalEntry → ℕ
reach n [] = n
reach n (e ∷ es) = reach (lsn_of e) es

-- Each entry is above the one before it, the first above `n`.
unfoldable pub Ascending : ℕ → List WalEntry → Type 0
Ascending n [] = Unit {0}
Ascending n (e ∷ es) = (n < lsn_of e) × Ascending (lsn_of e) es

pub reach-le : (n : ℕ) (es : List WalEntry) → Ascending n es → n ≤ reach n es
unfolding reach Ascending
reach-le n [] h = omega arith
reach-le n (e ∷ es) (h, hs) = omega (arith, h, reach-le (lsn_of e) es hs)

pub reach-fresh-le : (last n : ℕ) (es : List WalEntry) → last ≤ n → last ≤ reach n (fresh last es)
unfolding reach fresh
reach-fresh-le last n [] h = h
reach-fresh-le last n (e ∷ es) h =
    ground (arith, reach-fresh-le last (lsn_of e) es, reach-fresh-le last n es h)

-- Nothing above its end is left in an ascending list.
pub fresh_nothing :
    (last n : ℕ) (es : List WalEntry) → Ascending n es → reach n es ≤ last → fresh last es ≡ []
unfolding reach Ascending fresh
fresh_nothing last n [] a h = refl
fresh_nothing last n (e ∷ es) (a, above) h =
    ground (arith, fresh_nothing last (lsn_of e) es above h, reach-le (lsn_of e) es above)

reach-fresh-end :
    (last n m : ℕ) (es : List WalEntry)
    → Ascending n es
    → n ≤ m
    → last ≤ m
    → reach n es ≤ reach m (fresh last es)
unfolding reach Ascending fresh
reach-fresh-end last n m [] a h k = h
reach-fresh-end last n m (e ∷ es) (a, above) h k = ground (
  arith,
  reach-fresh-end last (lsn_of e) (lsn_of e) es above,
  reach-fresh-end last (lsn_of e) m es above,
)

pub fresh_all : (last n : ℕ) (es : List WalEntry) → Ascending n es → last ≤ n → fresh last es ≡ es
unfolding Ascending fresh
fresh_all last n [] a h = refl
fresh_all last n (e ∷ es) (a, above) h = ground (arith, fresh_all last (lsn_of e) es above)

Member-reach :
    (n : ℕ) (e : WalEntry) (es : List WalEntry)
    → Ascending n es
    → Member e es
    → lsn_of e ≤ reach n es
unfolding reach Ascending
Member-reach n e [] a m = absurd m
Member-reach n e (x ∷ es) (_, above) (inl same) =
    omega (arith, ap lsn_of same, reach-le (lsn_of x) es above)
Member-reach n e (x ∷ es) (_, above) (inr m) = Member-reach (lsn_of x) e es above m

-- Entries that are all among an ascending list are old where its end is.
fresh_among :
    (last : ℕ) (es es' : List WalEntry)
    → Ascending 0 es
    → reach 0 es ≤ last
    → All (λ e. Member e es) es'
    → fresh last es' ≡ []
unfolding fresh
fresh_among last es [] up h among = refl
fresh_among last es (e ∷ es') up h (m, among) =
    ground (arith, h, Member-reach 0 e es up m, fresh_among last es es' up h among)

-- An append request
pub record Append : Type 0 where
  pub now : ℕ
  pub term : ℕ
  pub leader_id : String
  pub prev_lsn : ℕ
  pub entries : List WalEntry

-- Where a follower stands when it has gone through `es`.
abbrev pub end : {D : Type 0} → FollowerNode D → List WalEntry → ℕ
end s es = reach s.last_applied_lsn (fresh s.last_applied_lsn es)

order_cases : (a b : ℕ) → (a < b) ⊎ (a ≡ b) ⊎ (b < a)
order_cases a b = ground arith

Result-cases : (r : Result (Unit {0})) → ((u : Unit {0}) × (r ≡ ok u)) ⊎ ((e : Error) × (r ≡ err e))
Result-cases (ok u) = inl (u, refl)
Result-cases (err e) = inr (e, refl)

module _ {D : Type 0} (execute_entry : LogEntry → D → Result (Unit {0}) × D) where
  unfoldable pub replay : List WalEntry → D → D
  replay [] db = db
  replay (e ∷ es) db = replay es (execute_entry e.entry db).1

  apply_from-fresh :
      (last m : ℕ) (es : List WalEntry) (db : D)
      → apply_from execute_entry last es (m, db)
        ≡ (reach m (fresh last es), replay (fresh last es) db)
  unfolding apply_from reach fresh replay
  apply_from-fresh last m [] db = refl
  apply_from-fresh last m (e ∷ es) db = elim (Bool-cases (leb (lsn_of e) last)) [
    | inl old ↦ ground (arith, old, apply_from-fresh last m es db)
    | inr new ↦
        ground (arith, new, apply_from-fresh last (lsn_of e) es (execute_entry e.entry db).1)
  ]

  pub process_from-fresh :
      (n : ℕ) (es : List WalEntry) (db : D)
      → Ascending n es
      → process_from execute_entry es (n, db) ≡ (reach n es, replay es db)
  unfolding process_from reach replay Ascending
  process_from-fresh n [] db a = refl
  process_from-fresh n (e ∷ es) db (a, above) =
      ground (arith, process_from-fresh (lsn_of e) es (execute_entry e.entry db).1 above)

  accepted :
      (es : List WalEntry) (prev_lsn : ℕ) (s : FollowerNode D)
      → is_gap prev_lsn s.last_applied_lsn ≡ false
      → ((check_and_apply execute_entry es prev_lsn s).0
          ≡ ok (append_entries_response s.node_id s.term true (end s es)))
        × ((check_and_apply execute_entry es prev_lsn s).1.executor
            ≡ replay (fresh s.last_applied_lsn es) s.executor)
        × ((check_and_apply execute_entry es prev_lsn s).1.last_applied_lsn ≡ end s es)
  unfolding check_and_apply set_last_applied_lsn execute
  accepted es prev_lsn s joined = ground (
    arith,
    joined,
    apply_from-fresh s.last_applied_lsn s.last_applied_lsn es s.executor,
    reach-fresh-le s.last_applied_lsn s.last_applied_lsn es,
  )

  refused :
      (es : List WalEntry) (prev_lsn : ℕ) (s : FollowerNode D)
      → is_gap prev_lsn s.last_applied_lsn ≡ true
      → ((check_and_apply execute_entry es prev_lsn s).1.executor ≡ s.executor)
        × ((check_and_apply execute_entry es prev_lsn s).1.last_applied_lsn ≡ s.last_applied_lsn)
  unfolding check_and_apply request_sync
  refused es prev_lsn s gap = ground (arith, gap)

  adopted :
      (term : ℕ) (s : FollowerNode D)
      → ((adopt_term term s).1.executor ≡ s.executor)
        × ((adopt_term term s).1.last_applied_lsn ≡ s.last_applied_lsn)
        × ((adopt_term term s).1.term ≡ term)
        × ((adopt_term term s).1.node_id ≡ s.node_id)
        × (s.election.state_tracker.faults ≡ [] → (adopt_term term s).0 ≡ ok tt)
  unfolding adopt_term set_current_term execute
  adopted term s = ground arith

  abbrev told : ℕ → String → FollowerNode D → FollowerNode D
  told now leader_id s = record s { leader_id = some leader_id; last_heartbeat = now }

  went_on :
      (now term : ℕ) (leader_id : String) (prev_lsn : ℕ) (es : List WalEntry) (s : FollowerNode D)
      → s.term < term
      → (adopt_term term s).0 ≡ ok tt
      → handle_append_entries execute_entry now term leader_id prev_lsn es s
        ≡ check_and_apply execute_entry es prev_lsn (told now leader_id (adopt_term term s).1)
  unfolding handle_append_entries
  went_on now term leader_id prev_lsn es s above fine = ground arith

  broke_off :
      (now term : ℕ) (leader_id : String) (prev_lsn : ℕ) (es : List WalEntry) (s : FollowerNode D)
      (e : Error)
      → s.term < term
      → (adopt_term term s).0 ≡ err e
      → (handle_append_entries execute_entry now term leader_id prev_lsn es s).1
        ≡ (adopt_term term s).1
  unfolding handle_append_entries
  broke_off now term leader_id prev_lsn es s e above failed = ground arith

  -- Where a request leads: it stops at once, or comes to the check of the log.
  led :
      (now term : ℕ) (leader_id : String) (prev_lsn : ℕ) (es : List WalEntry) (s : FollowerNode D)
      → ((handle_append_entries execute_entry now term leader_id prev_lsn es s).1.executor
            ≡ s.executor)
          × ((handle_append_entries execute_entry now term leader_id prev_lsn es
                s).1.last_applied_lsn
              ≡ s.last_applied_lsn)
        ⊎ ((s' : FollowerNode D) × (s'.executor ≡ s.executor)
            × (s'.last_applied_lsn ≡ s.last_applied_lsn)
            × (s'.term ≡ (if ltb s.term term then term else s.term))
            × (s'.node_id ≡ s.node_id)
            × (handle_append_entries execute_entry now term leader_id prev_lsn es s
                ≡ check_and_apply execute_entry es prev_lsn s'))
  unfolding handle_append_entries
  led now term leader_id prev_lsn es s = elim (order_cases term s.term) [
    | inl below ↦ inl (ground (arith, below))
    | inr (inl same) ↦
        inr (told now leader_id s, refl, refl, ground (arith, same), refl, ground (arith, same))
    | inr (inr above) ↦
        let (db, last, at, id, _) = adopted term s in
        elim (Result-cases (adopt_term term s).0) [
          | inl (_, fine) ↦ inr (
            told now leader_id (adopt_term term s).1,
            db,
            last,
            ground (arith, at, above),
            id,
            went_on now term leader_id prev_lsn es s above fine,
          )
          | inr (e, failed) ↦
              inl (rw (broke_off now term leader_id prev_lsn es s e above failed) (db, last))
        ]
  ]

  led_calm :
      (now term : ℕ) (leader_id : String) (prev_lsn : ℕ) (es : List WalEntry) (s : FollowerNode D)
      → s.election.state_tracker.faults ≡ []
      → s.term ≤ term
      → (s' : FollowerNode D) × (s'.executor ≡ s.executor)
        × (s'.last_applied_lsn ≡ s.last_applied_lsn)
        × (s'.term ≡ term)
        × (s'.node_id ≡ s.node_id)
        × (handle_append_entries execute_entry now term leader_id prev_lsn es s
            ≡ check_and_apply execute_entry es prev_lsn s')
  led_calm now term leader_id prev_lsn es s calm h = elim (order_cases s.term term) [
    | inl above ↦
        let (db, last, at, id, fine) = adopted term s in
        (
          told now leader_id (adopt_term term s).1,
          db,
          last,
          at,
          id,
          went_on now term leader_id prev_lsn es s above (fine calm),
        )
    | inr (inl same) ↦ (
      told now leader_id s,
      refl,
      refl,
      same,
      refl,
      unfold handle_append_entries in ground (arith, same),
    )
    | inr (inr below) ↦ absurd (omega (arith, h, below))
  ]

  -- A request of a term that is not stale, that follows on what the follower has applied, executes
  -- exactly the entries above that, in order, when the tracker's writes succeed: the answer and the
  -- follower then hold the LSN of the last of them, and an entry that fails is passed over.
  pub append_replays :
      (now term : ℕ) (leader_id : String) (prev_lsn : ℕ) (es : List WalEntry) (s : FollowerNode D)
      → s.election.state_tracker.faults ≡ []
      → s.term ≤ term
      → is_gap prev_lsn s.last_applied_lsn ≡ false
      → (s' : FollowerNode D) × (handle_append_entries execute_entry now term leader_id prev_lsn es
            s
          ≡ (ok (append_entries_response s.node_id term true (end s es)), s'))
        × (s'.executor ≡ replay (fresh s.last_applied_lsn es) s.executor)
        × (s'.last_applied_lsn ≡ end s es)
  append_replays now term leader_id prev_lsn es s calm h joined =
      let (s₁, db, last, at, id, e) = led_calm now term leader_id prev_lsn es s calm h in
      let (answer, ran, reached) = accepted es prev_lsn s₁ (rw last joined) in
      ((check_and_apply execute_entry es prev_lsn s₁).1, cc, cc, cc)

  -- A request of a stale term, or one that does not follow on what the follower has applied,
  -- executes nothing and leaves the applied LSN as it was.
  pub append_refused :
      (now term : ℕ) (leader_id : String) (prev_lsn : ℕ) (es : List WalEntry) (s : FollowerNode D)
      → (term < s.term) ⊎ (is_gap prev_lsn s.last_applied_lsn ≡ true)
      → ((handle_append_entries execute_entry now term leader_id prev_lsn es s).1.executor
          ≡ s.executor)
        × ((handle_append_entries execute_entry now term leader_id prev_lsn es s).1.last_applied_lsn
            ≡ s.last_applied_lsn)
  append_refused now term leader_id prev_lsn es s (inl stale) =
      unfold handle_append_entries in ground (arith, stale)
  append_refused now term leader_id prev_lsn es s (inr gap) =
      elim (led now term leader_id prev_lsn es s) [
        | inl same ↦ same
        | inr (s₁, db, last, _, _, e) ↦
            let (db₁, last₁) = refused es prev_lsn s₁ (rw last gap) in rw e (db₁ ∙ db, last₁ ∙ last)
      ]

  executed :
      (now term : ℕ) (leader_id : String) (prev_lsn : ℕ) (es : List WalEntry) (s : FollowerNode D)
      → fresh s.last_applied_lsn es ≡ []
      → (handle_append_entries execute_entry now term leader_id prev_lsn es s).1.executor
        ≡ s.executor
  unfolding replay
  executed now term leader_id prev_lsn es s none_new = elim (led now term leader_id prev_lsn es s) [
    | inl (same, _) ↦ same
    | inr (s₁, db, last, _, _, e) ↦ elim (Bool-cases (is_gap prev_lsn s₁.last_applied_lsn)) [
      | inl gap ↦ rw e ((refused es prev_lsn s₁ gap).0 ∙ db)
      | inr joined ↦
          let (_, ran, _) = accepted es prev_lsn s₁ joined in
          let old : fresh s₁.last_applied_lsn es ≡ [] = rw last none_new in
          rw e (rw old at ran ∙ db)
    ]
  ]

  unfoldable pub append_all : List Append → FollowerNode D → FollowerNode D
  append_all [] s = s
  append_all (a ∷ as') s =
      append_all as'
        (handle_append_entries execute_entry a.now a.term a.leader_id a.prev_lsn a.entries s).1

  append-never_falls :
      (now term : ℕ) (leader_id : String) (prev_lsn : ℕ) (es : List WalEntry) (s : FollowerNode D)
      → s.last_applied_lsn
        ≤ (handle_append_entries execute_entry now term leader_id prev_lsn es s).1.last_applied_lsn
  append-never_falls now term leader_id prev_lsn es s =
      elim (led now term leader_id prev_lsn es s) [
        | inl (_, last) ↦ omega (arith, last)
        | inr (s₁, _, last, _, _, e) ↦ elim (Bool-cases (is_gap prev_lsn s₁.last_applied_lsn)) [
          | inl gap ↦ rw e (omega (arith, last, (refused es prev_lsn s₁ gap).1))
          | inr joined ↦
              let (_, _, reached) = accepted es prev_lsn s₁ joined in
              rw e (
                omega (
                  arith,
                  last,
                  reached,
                  reach-fresh-le s₁.last_applied_lsn s₁.last_applied_lsn es (omega arith),
                ))
        ]
      ]

  append_all-never_falls :
      (as' : List Append) (s : FollowerNode D)
      → s.last_applied_lsn ≤ (append_all as' s).last_applied_lsn
  unfolding append_all
  append_all-never_falls [] s = omega arith
  append_all-never_falls (a ∷ as') s =
      let next =
        (handle_append_entries execute_entry a.now a.term a.leader_id a.prev_lsn a.entries s).1 in
      omega (
        arith,
        append-never_falls a.now a.term a.leader_id a.prev_lsn a.entries s,
        append_all-never_falls as' next,
      )

  -- Once a follower has accepted entries in ascending order, and after any further append requests, a
  -- request all of whose entries are among those executes nothing, whatever its term, its leader and
  -- its previous LSN.
  pub redelivery_executes_nothing :
      (now now' term term' : ℕ) (leader_id leader_id' : String) (prev_lsn prev_lsn' : ℕ)
      (es es' : List WalEntry) (between : List Append) (s : FollowerNode D)
      → s.election.state_tracker.faults ≡ []
      → s.term ≤ term
      → is_gap prev_lsn s.last_applied_lsn ≡ false
      → Ascending 0 es
      → All (λ e. Member e es) es'
      → (let s₁ =
            append_all between
              (handle_append_entries execute_entry now term leader_id prev_lsn es s).1 in
          (handle_append_entries execute_entry now' term' leader_id' prev_lsn' es' s₁).1.executor
          ≡ s₁.executor)
  redelivery_executes_nothing now now' term term' l l' prev prev' es es' between s calm h joined up
        among =
      let (s₁, e, _, last) = append_replays now term l prev es s calm h joined in
      let s₂ = append_all between s₁ in
      let reached : reach 0 es ≤ s₂.last_applied_lsn = omega (
        arith,
        last,
        append_all-never_falls between s₁,
        reach-fresh-end s.last_applied_lsn 0 s.last_applied_lsn es up (omega arith) (omega arith),
      ) in
      rw e (
        executed now' term' l' prev' es' s₂
          (fresh_among s₂.last_applied_lsn es es' up reached among))
