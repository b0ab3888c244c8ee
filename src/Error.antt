-- ===== src/Error.antt =====
-- error.rs: the errors of WolfScale, and computations that may fail and change a state. An error of
-- another crate that is wrapped (`#[from]`) carries nothing here.
use wolf_scale.Base.{ℕ, String, Bool, true, false}

pub data Error : Type 0 where
  config : String → Error
  config_parse : Error
  wal : String → Error
  wal_segment_not_found : ℕ → Error
  wal_corrupted : (lsn : ℕ) (reason : String) → Error
  wal_serialization : Error
  database : Error
  schema query_execution : String → Error
  replication not_leader : String → Error
  no_leader : Error
  node_not_found : String → Error
  quorum_not_reached : (reached required : ℕ) → Error
  network : String → Error
  connection_failed : (address reason : String) → Error
  connection_timeout : String → Error
  state state_corrupted : String → Error
  io : Error
  sync_failed : (node_id : String) (entries_behind : ℕ) → Error
  catch_up_required : (start finish : ℕ) → Error
  internal : String → Error
  cancelled shutting_down database_unavailable : Error

unfoldable pub is_retryable : Error → Bool
is_retryable (connection_timeout _) = true
is_retryable (quorum_not_reached _ _) = true
is_retryable (network _) = true
is_retryable _ = false

unfoldable pub should_step_down : Error → Bool
should_step_down (quorum_not_reached _ _) = true
should_step_down (network _) = true
should_step_down database_unavailable = true
should_step_down _ = false

pub data Result {ℓ} (A : Type ℓ) : Type ℓ where
  ok : A → Result A
  err : Error → Result A

-- A method of an object with state `S`: what was written before an error stays written.
abbrev pub Act : Type 0 → Type 0 → Type 0
Act S A = S → Result A × S

module _ {S A : Type 0} where
  abbrev pub pure : A → Act S A
  pure a s = (ok a, s)

  abbrev pub gets : (S → A) → Act S A
  gets f s = (ok (f s), s)

abbrev pub modify : {S : Type 0} → (S → S) → Act S (Unit {0})
modify f s = (ok tt, f s)

module _ {S A B : Type 0} where
  abbrev pub continue : Result A → (A → Act S B) → Act S B
  continue (ok a) f s = f a s
  continue (err e) f s = (err e, s)

  infixl 5 ◌>>=◌ ◌>>◌
  abbrev pub ◌>>=◌ : Act S A → (A → Act S B) → Act S B
  ◌>>=◌ m f s = let (r, s') = m s in continue r f s'

  abbrev pub ◌>>◌ : Act S A → Act S B → Act S B
  m >> n = m >>= λ _. n
