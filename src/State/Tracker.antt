-- ===== src/State/Tracker.antt =====
-- state/tracker.rs: the state that a node keeps in SQLite. The tables are lists of rows, and each
-- statement does to them what its text says. Whether SQLite carries a statement out is not known
-- to the code: `faults` holds, in order, whether the statements to come fail; where it is empty they
-- succeed. A `u64` is stored as the `i64` of the same bits, so SQL compares it as a signed number.
pub mod Cells
pub mod Watermarks
use wolf_scale.Base.{
  ℕ, ◌+◌, ◌%◌, ◌^◌, String, Bool, true, false, not, ◌&&◌, Option, none, some, List, [], ◌∷◌, ◌++◌,
  ltb, ◌==◌, if◌then◌else◌, length, keep, map, Dict, lookup, insert, remove, adjust, contains_key,
}
use wolf_scale.Error.{Result, ok, err, state, Act, pure, gets, modify, continue, ◌>>=◌, ◌>>◌}

pub record Row : Type 0 where
  pub value_int : Option ℕ
  pub value_text : Option String

pub record Applied : Type 0 where
  pub lsn : ℕ
  pub table_name : String
  pub primary_key : String

pub record StateTracker : Type 0 where
  pub node_state : Dict Row
  pub applied_entries : List Applied
  pub table_watermarks : Dict ℕ
  pub faults : List Bool

-- `StateTracker::new` on a new database
abbrev pub new : List Bool → StateTracker
new faults = record {
  node_state = [];
  applied_entries = [];
  table_watermarks = [];
  faults = faults;
}

-- `<` on the `i64`s of the same bits
abbrev pub signed_lt : ℕ → ℕ → Bool
signed_lt a b = ltb ((a + 2 ^ 63) % 2 ^ 64) ((b + 2 ^ 63) % 2 ^ 64)

abbrev pub tail_of : List Bool → List Bool
tail_of [] = []
tail_of (b ∷ bs) = bs

abbrev pub fails : List Bool → Bool
fails [] = false
fails (b ∷ bs) = b

-- One statement that changes the tables.
unfoldable pub execute : (StateTracker → StateTracker) → Act StateTracker (Unit {0})
execute change s =
    let s' = record s { faults = tail_of s.faults } in
    if fails s.faults then (err (state "SQLite error"), s') else (ok tt, change s')

-- One query, with the message that the code gives for its failure.
unfoldable pub query : {A : Type 0} → String → (StateTracker → Result A) → Act StateTracker A
query message read s =
    let s' = record s { faults = tail_of s.faults } in
    if fails s.faults then (err (state message), s') else (read s', s')

abbrev pub empty_row : Row
empty_row = record { value_int = none; value_text = none }

-- `INSERT … ON CONFLICT(key) DO UPDATE`
unfoldable pub upsert : String → (Row → Row) → StateTracker → StateTracker
upsert key change s = record s {
  node_state =
      if contains_key key s.node_state
      then adjust key change s.node_state
      else insert key (change empty_row) s.node_state;
}

abbrev pub with_int : ℕ → Row → Row
with_int v r = record r { value_int = some v }

abbrev pub with_text : String → Row → Row
with_text v r = record r { value_text = some v }

-- What `row.get(0)` makes of a NULL is an error.
abbrev pub or_null {ℓ} : {A : Type ℓ} → String → Option A → Result A
or_null message none = err (state message)
or_null message (some v) = ok v

-- No row gives the default.
abbrev pub int_of : String → ℕ → Option Row → Result ℕ
int_of message default none = ok default
int_of message default (some r) = or_null message r.value_int

abbrev pub wrapped : Result String → Result (Option String)
wrapped (ok s) = ok (some s)
wrapped (err e) = err e

abbrev pub text_of : String → Option Row → Result (Option String)
text_of message none = ok none
text_of message (some r) = wrapped (or_null message r.value_text)

unfoldable pub last_applied_lsn : Act StateTracker ℕ
last_applied_lsn =
    query "Failed to get last LSN"
      (λ s. int_of "Failed to get last LSN" 0 (lookup "last_applied_lsn" s.node_state))

unfoldable pub set_last_applied_lsn : ℕ → Act StateTracker (Unit {0})
set_last_applied_lsn lsn = execute (upsert "last_applied_lsn" (with_int lsn))

unfoldable pub current_term : Act StateTracker ℕ
current_term =
    query "Failed to get term"
      (λ s. int_of "Failed to get term" 1 (lookup "current_term" s.node_state))

unfoldable pub set_current_term : ℕ → Act StateTracker (Unit {0})
set_current_term term = execute (upsert "current_term" (with_int term))

unfoldable pub voted_for : Act StateTracker (Option String)
voted_for =
    query "Failed to get voted_for"
      (λ s. text_of "Failed to get voted_for" (lookup "voted_for" s.node_state))

unfoldable pub set_voted_for : Option String → Act StateTracker (Unit {0})
set_voted_for (some id) = execute (upsert "voted_for" (with_text id))
set_voted_for none = execute (λ s. record s { node_state = remove "voted_for" s.node_state })

unfoldable pub current_leader : Act StateTracker (Option String)
current_leader =
    query "Failed to get leader"
      (λ s. text_of "Failed to get leader" (lookup "current_leader" s.node_state))

unfoldable pub set_current_leader : Option String → Act StateTracker (Unit {0})
set_current_leader (some id) = execute (upsert "current_leader" (with_text id))
set_current_leader none =
    execute (λ s. record s { node_state = remove "current_leader" s.node_state })

-- `INSERT OR REPLACE`: the row of that `lsn` goes.
abbrev pub put_applied : Applied → StateTracker → StateTracker
put_applied a s = record s {
  applied_entries = keep (λ b. not (b.lsn == a.lsn)) s.applied_entries ++ (a ∷ []);
}

-- `MAX(last_lsn, ?2)`
abbrev pub raise_to : ℕ → ℕ → ℕ
raise_to lsn old = if signed_lt old lsn then lsn else old

abbrev pub raise_watermark : String → ℕ → StateTracker → StateTracker
raise_watermark table lsn s = record s {
  table_watermarks =
      if contains_key table s.table_watermarks
      then adjust table (raise_to lsn) s.table_watermarks
      else insert table lsn s.table_watermarks;
}

unfoldable pub record_applied : ℕ → String → String → Act StateTracker (Unit {0})
unfolding execute
record_applied lsn table key = do
  execute (put_applied (record { lsn = lsn; table_name = table; primary_key = key }))
  execute (raise_watermark table lsn)

unfoldable pub is_applied : ℕ → Act StateTracker Bool
unfolding query
is_applied lsn =
    query "Failed to check applied"
      (λ s. ok (ltb 0 (length (keep (λ a. a.lsn == lsn) s.applied_entries))))

abbrev pub or_zero : Option ℕ → ℕ
or_zero none = 0
or_zero (some n) = n

unfoldable pub table_watermark : String → Act StateTracker ℕ
unfolding query
table_watermark table =
    query "Failed to get watermark" (λ s. ok (or_zero (lookup table s.table_watermarks)))

unfoldable pub all_watermarks : Act StateTracker (Dict ℕ)
unfolding query
all_watermarks = query "SQLite error" (λ s. ok s.table_watermarks)

unfoldable pub applied_count : Act StateTracker ℕ
unfolding query
applied_count = query "SQLite error" (λ s. ok (length s.applied_entries))

-- `ORDER BY lsn`
unfoldable pub insert_ordered : ℕ → List ℕ → List ℕ
insert_ordered n [] = n ∷ []
insert_ordered n (m ∷ ms) = if signed_lt m n then m ∷ insert_ordered n ms else n ∷ m ∷ ms

unfoldable pub ordered : List ℕ → List ℕ
unfolding insert_ordered
ordered [] = []
ordered (n ∷ ns) = insert_ordered n (ordered ns)

unfoldable pub applied_in_range : ℕ → ℕ → Act StateTracker (List ℕ)
unfolding query ordered
applied_in_range low high = query "SQLite error" (λ s. ok (
    ordered (
      map (λ a. a.lsn)
        (keep (λ a. not (signed_lt a.lsn low) && not (signed_lt high a.lsn)) s.applied_entries))))

-- The rows that are deleted are counted.
unfoldable pub cleanup_before : ℕ → Act StateTracker ℕ
unfolding execute
cleanup_before lsn s =
    let rows = keep (λ a. not (signed_lt a.lsn lsn)) s.applied_entries in
    let gone = keep (λ a. signed_lt a.lsn lsn) s.applied_entries in
    (do execute (λ t. record t { applied_entries = rows }); pure (length gone)) s
