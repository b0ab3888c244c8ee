-- ===== src/Wal/Writer/Answers.antt =====
-- Each request to the writer task is answered once, over every list of turns.
use wolf_scale.Base.{
  ℕ, ◌+◌, ◌≡◌, refl, ap, ◌∙◌, List, [], ◌∷◌, ◌++◌, arith, inl, inr, ◌==◌, if◌then◌else◌, Bool-cases,
}
use wolf_scale.Error.{Result, ok}
use wolf_scale.Wal.Entry.{WalEntry, is_noop}
use wolf_scale.Wal.Segment.{Codec, Segment}
use wolf_scale.Wal.Writer.{
  WalWriter, Directory, Turn, request, timeout, term, write_one, write_entries, ensure_segment,
  flush_into, flush_buffer, receive, set_term, turn, writer_task,
}
use wolf_scale.Wal.Writer.Numbers.{flush_cases, heard, turn_cases}

-- How often a channel is in a list of requests, of answers, of waiting entries.
unfoldable pub asked : ℕ → List Turn → ℕ
asked t [] = 0
asked t (request r ∷ ts) = (if r.response == t then 1 else 0) + asked t ts
asked t (_ ∷ ts) = asked t ts

unfoldable pub answered : ℕ → List (ℕ × Result ℕ) → ℕ
answered t [] = 0
answered t ((r, _) ∷ rs) = (if r == t then 1 else 0) + answered t rs

unfoldable pub waiting : ℕ → List (WalEntry × ℕ) → ℕ
waiting t [] = 0
waiting t ((_, r) ∷ bs) = (if r == t then 1 else 0) + waiting t bs

abbrev pub held : ℕ → WalWriter → ℕ
held t w = answered t w.responses + waiting t w.buffer

answered-append :
    (t : ℕ) (xs ys : List (ℕ × Result ℕ)) → answered t (xs ++ ys) ≡ answered t xs + answered t ys
unfolding answered
answered-append t [] ys = omega arith
answered-append t (x ∷ xs) ys = ground (arith, answered-append t xs ys)

waiting-append :
    (t : ℕ) (xs ys : List (WalEntry × ℕ)) → waiting t (xs ++ ys) ≡ waiting t xs + waiting t ys
unfolding waiting
waiting-append t [] ys = omega arith
waiting-append t (x ∷ xs) ys = ground (arith, waiting-append t xs ys)

module _ (c : Codec) where
  answered-write_entries :
      (t : ℕ) (w : WalWriter) (es : List (WalEntry × ℕ)) (s : Segment) (d : Directory)
      → answered t (write_entries c w es s d).responses ≡ waiting t es
  unfolding answered waiting write_entries
  answered-write_entries t w [] s d = refl
  answered-write_entries t w ((e, r) ∷ es) s d =
      let (_, (segment, files)) = write_one c w e s d in
      ap (λ n. (if r == t then 1 else 0) + n) (answered-write_entries t w es segment files)

  held-flush : (t : ℕ) (w : WalWriter) → held t (flush_buffer c w) ≡ held t w
  unfolding waiting
  held-flush t w = elim (flush_cases c w) [
    | inl same ↦ rw same refl
    | inr ((s, d), _, done) ↦ rw done (
        let sum = answered-append t w.responses (write_entries c w w.buffer s d).responses in
        let all = answered-write_entries t w w.buffer s d in omega (arith, sum, all))
  ]

  held-heard :
      (t : ℕ) (u : Turn) (w : WalWriter) → held t (heard c u w) ≡ held t w + asked t (u ∷ [])
  unfolding heard receive set_term asked answered waiting
  held-heard t (request r) w = elim (Bool-cases (is_noop r.entry)) [
    | inl skipped ↦
        rw skipped (omega (arith, answered-append t w.responses ((r.response, ok 0) ∷ [])))
    | inr kept ↦ rw kept (omega (arith, waiting-append t w.buffer ((_, r.response) ∷ [])))
  ]
  held-heard t timeout w = omega arith
  held-heard t (term _) w = omega arith

  held-turn : (t : ℕ) (u : Turn) (w : WalWriter) → held t (turn c u w) ≡ held t w + asked t (u ∷ [])
  held-turn t u w = elim (turn_cases c u w) [
    | inl same ↦ rw same (held-heard t u w)
    | inr done ↦ rw done (held-flush t (heard c u w) ∙ held-heard t u w)
  ]

  asked_turn :
      (t : ℕ) (u : Turn) (ts : List Turn) → asked t (u ∷ ts) ≡ asked t (u ∷ []) + asked t ts
  unfolding asked
  asked_turn t (request r) ts = omega arith
  asked_turn t timeout ts = omega arith
  asked_turn t (term _) ts = omega arith

  -- Over any turns, each channel is answered or waits as often as it was passed: no request is
  -- lost and none is answered twice.
  pub held-writer_task :
      (t : ℕ) (ts : List Turn) (w : WalWriter) → held t (writer_task c ts w) ≡ held t w + asked t ts
  unfolding writer_task asked
  held-writer_task t [] w = omega arith
  held-writer_task t (u ∷ ts) w =
      omega (arith, held-writer_task t ts (turn c u w), held-turn t u w, asked_turn t u ts)

  flush_into-waiting :
      (t : ℕ) (es : List (WalEntry × ℕ)) (w : WalWriter) (there : Segment × Directory)
      → w.buffer ≡ es
      → waiting t (flush_into c es (ok there) w).buffer ≡ 0
  unfolding waiting
  flush_into-waiting t [] w there h = rw h refl
  flush_into-waiting t (_ ∷ _) w there h = refl

  flush-waiting :
      (t : ℕ) (w : WalWriter) (there : Segment × Directory)
      → ensure_segment w ≡ ok there
      → waiting t (flush_buffer c w).buffer ≡ 0
  unfolding flush_buffer
  flush-waiting t w there h = rw h (flush_into-waiting t w.buffer w there refl)

  -- From a writer that holds nothing, a flush after any turns that finds a segment has every
  -- channel answered as often as it was passed.
  pub flush_answers_all :
      (t : ℕ) (ts : List Turn) (w : WalWriter) (there : Segment × Directory)
      → w.responses ≡ []
      → w.buffer ≡ []
      → ensure_segment (writer_task c ts w) ≡ ok there
      → answered t (flush_buffer c (writer_task c ts w)).responses ≡ asked t ts
  flush_answers_all t ts w there none_yet none_waits h =
      let fresh : held t w ≡ 0 = rw (none_yet, none_waits) (unfold answered waiting in refl) in
      omega (
        arith,
        held-writer_task t ts w,
        held-flush t (writer_task c ts w),
        flush-waiting t (writer_task c ts w) there h,
        fresh,
      )
