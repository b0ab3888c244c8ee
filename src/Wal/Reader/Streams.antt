-- ===== src/Wal/Reader/Streams.antt =====
-- `stream_from` of wal/reader.rs: its iterator begins the segment anew at each call.
use wolf_scale.Base.{
  ℕ, ◌≡◌, refl, true, Option, none, some, List, [], ◌∷◌, arith, Bool-cases, inl, inr, ap, ◌∙◌,
}
use mathlib.Core.Path.{subst}
use wolf_scale.Error.{Result}
use wolf_scale.Wal.Entry.{WalEntry}
use wolf_scale.Wal.Segment.{Codec, Segment, iterate}
use wolf_scale.Wal.Writer.{Directory}
use wolf_scale.Wal.Reader.{
  WalReader, WalEntryIterator, open_path, opened, give, resume, enter, first_result, advance, next,
}

none-some : {A : Type 0} {a : A} → none ≡ some a → ⊥
none-some h = cc

module _ (c : Codec) (d : Directory) (r : WalReader) where
  -- The iterator stands where a call would give the result again.
  pub record Stands (i : WalEntryIterator) (x : Result WalEntry) : Type 0 where
    pub segment : Segment
    pub is_started : i.started ≡ true
    pub current : i.current_segment ≡ some segment
    pub again : first_result i.from_lsn (iterate c segment) ≡ some x

  next-Stands :
      (i : WalEntryIterator) (x : Result WalEntry) → Stands i x → next c d r i ≡ (some x, i)
  unfolding next
  next-Stands i x h = ground (arith, h.is_started, h.current, h.again)

  resume-Stands :
      (o : Option Segment) (i j : WalEntryIterator) (x : Result WalEntry)
      (onward : Option (Result WalEntry) × WalEntryIterator)
      → i.started ≡ true
      → i.current_segment ≡ o
      → resume c o i onward ≡ (some x, j)
      → (onward ≡ (some x, j) → Stands j x)
      → Stands j x
  resume-Stands none i j x onward start current h later = later h
  resume-Stands (some s) i j x onward start current h later =
      go (first_result i.from_lsn (iterate c s)) refl h
    where
      go :
          (o : Option (Result WalEntry))
          → first_result i.from_lsn (iterate c s) ≡ o
          → give o i onward ≡ (some x, j)
          → Stands j x
      go none e h = later h
      go (some result) e h =
          subst (λ k. Stands k x) (ap (λ p. p.1) h)
            (record {
              segment = s;
              is_started = start;
              current = current;
              again = e ∙ ap (λ p. p.0) h;
            })

  enter-Stands :
      (o : Option Segment) (files : List (ℕ × ℕ)) (i j : WalEntryIterator) (x : Result WalEntry)
      (onward : WalEntryIterator → Option (Result WalEntry) × WalEntryIterator)
      → i.started ≡ true
      → enter c o files i onward ≡ (some x, j)
      → ((here : WalEntryIterator) → here.started ≡ true → onward here ≡ (some x, j) → Stands j x)
      → Stands j x
  enter-Stands none files i j x onward start h later = absurd (none-some (ap (λ p. p.0) h))
  enter-Stands (some s) files i j x onward start h later =
      let here = record i { current_segment = some s; segment_iter = files } in
      resume-Stands (some s) here j x (onward here) start refl h (later here start)

  advance-Stands :
      (files : List (ℕ × ℕ)) (i j : WalEntryIterator) (x : Result WalEntry)
      → i.started ≡ true
      → advance c d r files i ≡ (some x, j)
      → Stands j x
  unfolding advance
  advance-Stands [] i j x start h = absurd (none-some (ap (λ p. p.0) h))
  advance-Stands ((_, path) ∷ files) i j x start h =
      enter-Stands (opened (open_path d r path)) files i j x (advance c d r files) start h
        (λ here begun k. advance-Stands files here j x begun k)

  next_gives-Stands :
      (i j : WalEntryIterator) (x : Result WalEntry) → next c d r i ≡ (some x, j) → Stands j x
  unfolding next
  next_gives-Stands i j x h =
      let onward : advance c d r i.segment_iter (record i { started = true }) ≡ (some x, j)
          → Stands j x =
        λ k. advance-Stands i.segment_iter (record i { started = true }) j x refl k in
      elim (Bool-cases i.started) [
        | inr first_call ↦ onward (simp first_call at h)
        | inl later_call ↦
            resume-Stands i.current_segment i j x _ later_call refl (simp later_call at h) onward
      ]

  -- Once a call returns a result, each later call returns the same one.
  pub next_repeats :
      (i j : WalEntryIterator) (x : Result WalEntry)
      → next c d r i ≡ (some x, j)
      → next c d r j ≡ (some x, j)
  next_repeats i j x h = next-Stands j x (next_gives-Stands i j x h)
