-- ===== src/State/Tracker/Cells.antt =====
-- The cells of `node_state` in state/tracker.rs: what is set is read back, and no cell disturbs
-- another.
use wolf_scale.Base.{
  ℕ, String, ◌≡◌, refl, ◌∙◌, Option, none, some, [], arith, lookup, remove, lookup-insert,
  lookup-adjust, lookup-remove, str_eq, str_eq_iff, if◌then◌else◌,
}
use wolf_scale.Error.{ok}
use wolf_scale.State.Tracker.{
  Row, StateTracker, last_applied_lsn, set_last_applied_lsn, current_term, set_current_term,
  voted_for, set_voted_for, current_leader, set_current_leader, upsert, execute, query, empty_row,
  int_of, text_of, with_int, with_text,
}

abbrev upserted : (Row → Row) → Option Row → Option Row
upserted change none = some (change empty_row)
upserted change (some r) = some (change r)

lookup-upsert :
    (key k : String) (change : Row → Row) (t : StateTracker)
    → lookup k (upsert key change t).node_state
      ≡ (if str_eq key k then upserted change (lookup k t.node_state) else lookup k t.node_state)
unfolding upsert
lookup-upsert key k change t = ground (
  arith,
  str_eq_iff key k,
  lookup-insert key k (change empty_row) t.node_state,
  lookup-adjust key k change t.node_state,
)

-- What the four queries answer, where no fault is due.
abbrev pub Reads : StateTracker → ℕ → ℕ → Option String → Option String → Type 0
Reads t lsn term vote leader =
    ((last_applied_lsn t).0 ≡ ok lsn)
    × ((current_term t).0 ≡ ok term)
    × ((voted_for t).0 ≡ ok vote)
    × ((current_leader t).0 ≡ ok leader)

last_applied_lsn-at :
    (t : StateTracker)
    → t.faults ≡ []
    → (last_applied_lsn t).0
      ≡ int_of "Failed to get last LSN" 0 (lookup "last_applied_lsn" t.node_state)
unfolding last_applied_lsn query
last_applied_lsn-at t calm = ground arith

current_term-at :
    (t : StateTracker)
    → t.faults ≡ []
    → (current_term t).0 ≡ int_of "Failed to get term" 1 (lookup "current_term" t.node_state)
unfolding current_term query
current_term-at t calm = ground arith

voted_for-at :
    (t : StateTracker)
    → t.faults ≡ []
    → (voted_for t).0 ≡ text_of "Failed to get voted_for" (lookup "voted_for" t.node_state)
unfolding voted_for query
voted_for-at t calm = ground arith

current_leader-at :
    (t : StateTracker)
    → t.faults ≡ []
    → (current_leader t).0 ≡ text_of "Failed to get leader" (lookup "current_leader" t.node_state)
unfolding current_leader query
current_leader-at t calm = ground arith

-- A change of the tables where no fault is due.
execute-calm :
    (change : StateTracker → StateTracker) (t : StateTracker)
    → t.faults ≡ []
    → (execute change t).1 ≡ change (record t { faults = [] })
unfolding execute
execute-calm change t calm = ground arith

execute-faults :
    (change : StateTracker → StateTracker) (t : StateTracker)
    → ((s : StateTracker) → (change s).faults ≡ s.faults)
    → t.faults ≡ []
    → (execute change t).1.faults ≡ []
execute-faults change t keeps calm =
    rw (execute-calm change t calm) (keeps (record t { faults = [] }))

-- The rows behind a change of one cell.
abbrev Sets : String → Option Row → StateTracker → StateTracker → Type 0
Sets key row t t' =
    (t'.faults ≡ [])
    × ((k : String)
        → lookup k t'.node_state ≡ (if str_eq key k then row else lookup k t.node_state))

upsert-faults :
    (key : String) (change : Row → Row) (s : StateTracker) → (upsert key change s).faults ≡ s.faults
unfolding upsert
upsert-faults key change s = refl

upsert-Sets :
    (key : String) (change : Row → Row) (t : StateTracker)
    → t.faults ≡ []
    → Sets key (upserted change (lookup key t.node_state)) t (execute (upsert key change) t).1
upsert-Sets key change t calm = (
  execute-faults (upsert key change) t (upsert-faults key change) calm,
  λ k.
      rw (execute-calm (upsert key change) t calm)
        (ground (arith, lookup-upsert key k change (record t { faults = [] }), str_eq_iff key k)),
)

abbrev drop_row : String → StateTracker → StateTracker
drop_row key s = record s { node_state = remove key s.node_state }

remove-Sets :
    (key : String) (t : StateTracker) → t.faults ≡ [] → Sets key none t (execute (drop_row key) t).1
remove-Sets key t calm = (
  execute-faults (drop_row key) t (λ s. refl) calm,
  λ k. rw (execute-calm (drop_row key) t calm) (lookup-remove key k t.node_state),
)

abbrev row_of_text : Option String → Option Row → Option Row
row_of_text none r = none
row_of_text (some v) r = upserted (with_text v) r

set_voted_for-Sets :
    (vote : Option String) (t : StateTracker)
    → t.faults ≡ []
    → Sets "voted_for"
        (row_of_text vote (lookup "voted_for" t.node_state))
        t
        (set_voted_for vote t).1
unfolding set_voted_for
set_voted_for-Sets none t calm = remove-Sets "voted_for" t calm
set_voted_for-Sets (some v) t calm = upsert-Sets "voted_for" (with_text v) t calm

set_current_leader-Sets :
    (id : Option String) (t : StateTracker)
    → t.faults ≡ []
    → Sets "current_leader"
        (row_of_text id (lookup "current_leader" t.node_state))
        t
        (set_current_leader id t).1
unfolding set_current_leader
set_current_leader-Sets none t calm = remove-Sets "current_leader" t calm
set_current_leader-Sets (some v) t calm = upsert-Sets "current_leader" (with_text v) t calm

module _ (t t' : StateTracker) (key : String) (row : Option Row) (calm : t.faults ≡ [])
    (sets : Sets key row t t') where
  lsn_after : (last_applied_lsn t').0 ≡ (
      if str_eq key "last_applied_lsn"
      then int_of "Failed to get last LSN" 0 row
      else (last_applied_lsn t).0)
  lsn_after =
      ground (
        arith,
        last_applied_lsn-at t' sets.0,
        last_applied_lsn-at t calm,
        sets.1 "last_applied_lsn",
      )

  term_after : (current_term t').0 ≡ (
      if str_eq key "current_term" then int_of "Failed to get term" 1 row else (current_term t).0)
  term_after =
      ground (arith, current_term-at t' sets.0, current_term-at t calm, sets.1 "current_term")

  vote_after :
      (voted_for t').0
      ≡ (if str_eq key "voted_for" then text_of "Failed to get voted_for" row else (voted_for t).0)
  vote_after = ground (arith, voted_for-at t' sets.0, voted_for-at t calm, sets.1 "voted_for")

  leader_after : (current_leader t').0 ≡ (
      if str_eq key "current_leader"
      then text_of "Failed to get leader" row
      else (current_leader t).0)
  leader_after =
      ground (arith, current_leader-at t' sets.0, current_leader-at t calm, sets.1 "current_leader")

int_of-upserted :
    (m : String) (d n : ℕ) (r : Option Row) → int_of m d (upserted (with_int n) r) ≡ ok n
int_of-upserted m d n r = ground arith

text_of-row_of_text :
    (m : String) (v : Option String) (r : Option Row) → text_of m (row_of_text v r) ≡ ok v
text_of-row_of_text m v r = ground arith

-- While SQLite carries the statements out, each setter changes the answer of its own query to the
-- value that was set, and no other query's answer.
pub setters_independent :
    (t : StateTracker) (lsn lsn' term term' : ℕ) (vote vote' leader leader' : Option String)
    → t.faults ≡ []
    → Reads t lsn term vote leader
    → Reads (set_last_applied_lsn lsn' t).1 lsn' term vote leader
      × Reads (set_current_term term' t).1 lsn term' vote leader
      × Reads (set_voted_for vote' t).1 lsn term vote' leader
      × Reads (set_current_leader leader' t).1 lsn term vote leader'
unfolding set_last_applied_lsn set_current_term
setters_independent t lsn lsn' term term' vote vote' leader leader' calm r =
    let s1 = upsert-Sets "last_applied_lsn" (with_int lsn') t calm in
    let s2 = upsert-Sets "current_term" (with_int term') t calm in
    let s3 = set_voted_for-Sets vote' t calm in
    let s4 = set_current_leader-Sets leader' t calm in
    (
      (
        lsn_after t _ _ _ calm s1 ∙ int_of-upserted _ _ _ _,
        term_after t _ _ _ calm s1 ∙ r.1,
        vote_after t _ _ _ calm s1 ∙ r.2,
        leader_after t _ _ _ calm s1 ∙ r.3,
      ),
      (
        lsn_after t _ _ _ calm s2 ∙ r.0,
        term_after t _ _ _ calm s2 ∙ int_of-upserted _ _ _ _,
        vote_after t _ _ _ calm s2 ∙ r.2,
        leader_after t _ _ _ calm s2 ∙ r.3,
      ),
      (
        lsn_after t _ _ _ calm s3 ∙ r.0,
        term_after t _ _ _ calm s3 ∙ r.1,
        vote_after t _ _ _ calm s3 ∙ text_of-row_of_text _ _ _,
        leader_after t _ _ _ calm s3 ∙ r.3,
      ),
      (
        lsn_after t _ _ _ calm s4 ∙ r.0,
        term_after t _ _ _ calm s4 ∙ r.1,
        vote_after t _ _ _ calm s4 ∙ r.2,
        leader_after t _ _ _ calm s4 ∙ text_of-row_of_text _ _ _,
      ),
    )
