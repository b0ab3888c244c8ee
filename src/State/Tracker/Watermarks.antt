-- ===== src/State/Tracker/Watermarks.antt =====
-- The watermarks of state/tracker.rs cover the entries that were recorded as applied.
use wolf_scale.Base.{
  ℕ, String, ◌≡◌, Bool, false, not, Option, none, some, List, [], ◌∷◌, ◌++◌, arith, All, keep, Dict,
  lookup, lookup-insert, lookup-adjust, str_eq, str_eq_iff, str_eq_refl, if◌then◌else◌, Bool-cases,
  ◌==◌, inl, inr,
}
use wolf_scale.Error.{ok}
use wolf_scale.State.Tracker.{
  Applied, StateTracker, put_applied, raise_watermark, raise_to, record_applied, cleanup_before,
  signed_lt,
}

-- A table has a watermark, and the LSN is not above it.
abbrev pub Reaches : Option ℕ → ℕ → Type 0
Reaches none lsn = ⊥
Reaches (some w) lsn = signed_lt w lsn ≡ false

abbrev pub IsCovered : Dict ℕ → List Applied → Type 0
IsCovered w rows = All (λ a. Reaches (lookup a.table_name w) a.lsn) rows

abbrev raised : ℕ → Option ℕ → Option ℕ
raised lsn none = some lsn
raised lsn (some w) = some (raise_to lsn w)

lookup-raise_watermark :
    (table k : String) (lsn : ℕ) (t : StateTracker)
    → lookup k (raise_watermark table lsn t).table_watermarks ≡ (
        if str_eq table k
        then raised lsn (lookup k t.table_watermarks)
        else lookup k t.table_watermarks)
lookup-raise_watermark table k lsn t = ground (
  arith,
  str_eq_iff table k,
  lookup-insert table k lsn t.table_watermarks,
  lookup-adjust table k (raise_to lsn) t.table_watermarks,
)

raised-Reaches : (lsn l : ℕ) (o : Option ℕ) → Reaches o l → Reaches (raised lsn o) l
raised-Reaches lsn l none h = absurd h
raised-Reaches lsn l (some w) h = ground arith

raised_self : (lsn : ℕ) (o : Option ℕ) → Reaches (raised lsn o) lsn
raised_self lsn none = ground arith
raised_self lsn (some w) = ground arith

raise-Reaches :
    (table k : String) (lsn l : ℕ) (t : StateTracker)
    → Reaches (lookup k t.table_watermarks) l
    → Reaches (lookup k (raise_watermark table lsn t).table_watermarks) l
raise-Reaches table k lsn l t h = elim (Bool-cases (str_eq table k)) [
  | inl same ↦
      rw (lookup-raise_watermark table k lsn t, same)
        (raised-Reaches lsn l (lookup k t.table_watermarks) h)
  | inr other ↦ rw (lookup-raise_watermark table k lsn t, other) h
]

raise-IsCovered :
    (table : String) (lsn : ℕ) (t : StateTracker) (rows : List Applied)
    → IsCovered t.table_watermarks rows
    → IsCovered (raise_watermark table lsn t).table_watermarks rows
raise-IsCovered table lsn t [] h = tt
raise-IsCovered table lsn t (a ∷ rows) h =
    (raise-Reaches table a.table_name lsn a.lsn t h.0, raise-IsCovered table lsn t rows h.1)

All-keep {ℓ κ} :
    {A : Type ℓ} (P : A → Type κ) (p : A → Bool) (xs : List A) → All P xs → All P (keep p xs)
All-keep P p [] h = h
All-keep P p (x ∷ xs) h = elim (Bool-cases (p x)) [
  | inl e ↦ rw e (h.0, All-keep P p xs h.1)
  | inr e ↦ rw e (All-keep P p xs h.1)
]

All-snoc {ℓ κ} :
    {A : Type ℓ} (P : A → Type κ) (xs : List A) (x : A) → All P xs → P x → All P (xs ++ (x ∷ []))
All-snoc P [] x h hx = (hx, h)
All-snoc P (y ∷ xs) x h hx = (h.0, All-snoc P xs x h.1 hx)

-- What `record_applied` leaves behind where both statements are carried out.
record_applied-calm :
    (lsn : ℕ) (table key : String) (t : StateTracker)
    → t.faults ≡ []
    → record_applied lsn table key t ≡ (
      ok tt,
      raise_watermark table lsn (
          put_applied
            (record { lsn = lsn; table_name = table; primary_key = key })
            (record t { faults = [] })),
    )
unfolding record_applied
record_applied-calm lsn table key t calm = ground arith

cleanup-calm :
    (old : ℕ) (t : StateTracker)
    → t.faults ≡ []
    → (cleanup_before old t).1 ≡ record t {
      applied_entries = keep (λ a. not (signed_lt a.lsn old)) t.applied_entries;
      faults = [];
    }
unfolding cleanup_before
cleanup-calm old t calm = ground arith

-- While SQLite carries the statements out, recording an entry keeps every applied entry at or
-- below the watermark of its table, and the clean-up keeps that too.
pub watermarks_cover :
    (t : StateTracker) (lsn old : ℕ) (table key : String)
    → t.faults ≡ []
    → IsCovered t.table_watermarks t.applied_entries
    → IsCovered
        (record_applied lsn table key t).1.table_watermarks
        (record_applied lsn table key t).1.applied_entries
      × IsCovered (cleanup_before old t).1.table_watermarks (cleanup_before old t).1.applied_entries
watermarks_cover t lsn old table key calm h = (
  rw (record_applied-calm lsn table key t calm) (
      All-snoc _ _ _
        (All-keep _ (λ b. not (b.lsn == lsn)) _ (raise-IsCovered table lsn t t.applied_entries h))
        (rw (lookup-raise_watermark table table lsn t, str_eq_refl table)
          (raised_self lsn (lookup table t.table_watermarks)))),
  rw (cleanup-calm old t calm) (All-keep _ (λ a. not (signed_lt a.lsn old)) t.applied_entries h),
)
