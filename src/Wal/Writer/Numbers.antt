-- ===== src/Wal/Writer/Numbers.antt =====
-- The LSNs that the writer task gives, over every list of turns.
use wolf_scale.Base.{
  ℕ, zero, suc, ◌+◌, ◌^◌, ◌<◌, ◌≡◌, refl, ap, List, [], ◌∷◌, ◌++◌, map, arith, ◌⊎◌, inl, inr, All,
  All-append, All-weaken, Member, Member-append-left, Member-append-right, append_assoc, append-nil,
  length, u64, if◌then◌else◌, Bool-cases, Bool, true, not, ◌==◌, keep,
}
use wolf_scale.Error.{Result, ok, err}
use wolf_scale.Wal.Entry.{WalEntry, is_noop}
use wolf_scale.Wal.Segment.{Codec, Segment, append}
use wolf_scale.Wal.Writer.{
  WalWriter, WriteRequest, Directory, Turn, request, timeout, term, new_entry, write_one, rotate,
  answer, write_entries, ensure_segment, flushed, flush_into, flush_buffer, receive, on_request,
  on_timeout, set_term, turn, writer_task,
}

-- The requests of some turns with what they are to be answered: those to be written have the LSNs
-- from a number on, and a no-op has 0.
unfoldable pub granted : ℕ → List Turn → List (ℕ × ℕ)
granted n [] = []
granted n (request r ∷ ts) =
    if is_noop r.entry
    then (r.response, 0) ∷ granted n ts
    else (r.response, u64 (n + 1)) ∷ granted (u64 (n + 1)) ts
granted n (_ ∷ ts) = granted n ts

-- `n` LSNs from one on.
unfoldable pub count_up : ℕ → ℕ → List ℕ
count_up lsn zero = []
count_up lsn (suc k) = suc lsn ∷ count_up (suc lsn) k

-- A number is the one that the request is to have.
abbrev pub IsGranted : List (ℕ × ℕ) → ℕ × Result ℕ → Type 0
IsGranted gs (t, ok n) = Member (t, n) gs
IsGranted gs (t, err _) = Unit {0}

abbrev pub Waits : List (ℕ × ℕ) → WalEntry × ℕ → Type 0
Waits gs (e, t) = Member (t, e.header.lsn) gs

abbrev pub Sound : List (ℕ × ℕ) → WalWriter → Type 0
Sound gs w = All (IsGranted gs) w.responses × All (Waits gs) w.buffer

IsGranted-append :
    (gs hs : List (ℕ × ℕ)) (a : ℕ × Result ℕ) → IsGranted gs a → IsGranted (gs ++ hs) a
IsGranted-append gs hs (t, ok n) m = Member-append-left (t, n) gs hs m
IsGranted-append gs hs (t, err _) g = tt

Sound-append : (gs hs : List (ℕ × ℕ)) (w : WalWriter) → Sound gs w → Sound (gs ++ hs) w
Sound-append gs hs w (rs, bs) = (
  All-weaken (IsGranted gs) (IsGranted (gs ++ hs)) w.responses (IsGranted-append gs hs) rs,
  All-weaken (Waits gs) (Waits (gs ++ hs)) w.buffer
      (λ b m. Member-append-left (b.1, b.0.header.lsn) gs hs m) bs,
)

answer-IsGranted :
    (gs : List (ℕ × ℕ)) (t lsn : ℕ) (r : Result ℕ)
    → Member (t, lsn) gs
    → IsGranted gs (t, answer lsn r)
answer-IsGranted gs t lsn (ok _) m = m
answer-IsGranted gs t lsn (err _) m = tt

module _ (c : Codec) where
  write_entries-IsGranted :
      (w : WalWriter) (gs : List (ℕ × ℕ)) (es : List (WalEntry × ℕ)) (s : Segment) (d : Directory)
      → All (Waits gs) es
      → All (IsGranted gs) (write_entries c w es s d).responses
  unfolding write_entries write_one
  write_entries-IsGranted w gs [] s d h = tt
  write_entries-IsGranted w gs ((e, t) ∷ es) s d (m, h) =
      let (segment, files) = rotate w e.header.lsn s d in
      (
        answer-IsGranted gs t e.header.lsn (append c e segment).0 m,
        write_entries-IsGranted w gs es _ _ h,
      )

  flush_into_cases :
      (es : List (WalEntry × ℕ)) (r : Result (Segment × Directory)) (w : WalWriter)
      → (flush_into c es r w ≡ w)
        ⊎ ((there : Segment × Directory) × (r ≡ ok there)
            × (flush_into c es r w ≡ flushed c w there))
  flush_into_cases [] r w = inl refl
  flush_into_cases (_ ∷ _) (ok there) w = inr (there, refl, refl)
  flush_into_cases (_ ∷ _) (err _) w = inl refl

  -- A flush does nothing, or it writes the whole buffer to the segment that is there.
  pub flush_cases :
      (w : WalWriter)
      → (flush_buffer c w ≡ w)
        ⊎ ((there : Segment × Directory) × (ensure_segment w ≡ ok there)
            × (flush_buffer c w ≡ flushed c w there))
  unfolding flush_buffer
  flush_cases w = flush_into_cases w.buffer (ensure_segment w) w

  flush-Sound : (gs : List (ℕ × ℕ)) (w : WalWriter) → Sound gs w → Sound gs (flush_buffer c w)
  flush-Sound gs w (rs, bs) = elim (flush_cases w) [
    | inl same ↦ rw same (rs, bs)
    | inr ((s, d), _, done) ↦ rw done (
      All-append (IsGranted gs) w.responses (write_entries c w w.buffer s d).responses rs
          (write_entries-IsGranted w gs w.buffer s d bs),
      tt,
    )
  ]

  on_request_cases :
      (r : WriteRequest) (w : WalWriter)
      → (on_request c r w ≡ receive c r w) ⊎ (on_request c r w ≡ flush_buffer c (receive c r w))
  unfolding on_request
  on_request_cases r w = ground arith

  on_timeout_cases : (w : WalWriter) → (on_timeout c w ≡ w) ⊎ (on_timeout c w ≡ flush_buffer c w)
  unfolding on_timeout
  on_timeout_cases w = ground arith

  -- A turn is what its message says, with or without a flush behind it.
  unfoldable pub heard : Turn → WalWriter → WalWriter
  heard (request r) w = receive c r w
  heard timeout w = w
  heard (term t) w = set_term t w

  pub turn_cases :
      (t : Turn) (w : WalWriter)
      → (turn c t w ≡ heard t w) ⊎ (turn c t w ≡ flush_buffer c (heard t w))
  unfolding turn heard
  turn_cases (request r) w = on_request_cases r w
  turn_cases timeout w = on_timeout_cases w
  turn_cases (term t) w = inl refl

  flush-current_lsn : (w : WalWriter) → (flush_buffer c w).current_lsn ≡ w.current_lsn
  flush-current_lsn w = elim (flush_cases w) [
    | inl same ↦ rw same refl
    | inr (_, _, done) ↦ rw done refl
  ]

  turn-current_lsn : (t : Turn) (w : WalWriter) → (turn c t w).current_lsn ≡ (heard t w).current_lsn
  turn-current_lsn t w = elim (turn_cases t w) [
    | inl same ↦ rw same refl
    | inr done ↦ rw done (flush-current_lsn (heard t w))
  ]

  receive-Sound :
      (gs : List (ℕ × ℕ)) (r : WriteRequest) (w : WalWriter)
      → Sound gs w
      → Sound (gs ++ granted w.current_lsn (request r ∷ [])) (receive c r w)
  unfolding receive granted new_entry
  receive-Sound gs r w (rs, bs) = elim (Bool-cases (is_noop r.entry)) [
    | inl skipped ↦
        let hs = (r.response, 0) ∷ [] in
        let (rs', bs') = Sound-append gs hs w (rs, bs) in
        rw skipped (
          All-append (IsGranted (gs ++ hs)) w.responses ((r.response, ok 0) ∷ []) rs'
              (Member-append-right (r.response, 0) gs hs (inl refl), tt),
          bs',
        )
    | inr kept ↦
        let lsn = u64 (w.current_lsn + 1) in
        let hs = (r.response, lsn) ∷ [] in
        let e = new_entry c lsn w.current_term w.node_id r.created r.entry in
        let (rs', bs') = Sound-append gs hs w (rs, bs) in
        rw kept (
          rs',
          All-append (Waits (gs ++ hs)) w.buffer ((e, r.response) ∷ []) bs'
              (Member-append-right (r.response, lsn) gs hs (inl refl), tt),
        )
  ]

  heard-Sound :
      (gs : List (ℕ × ℕ)) (t : Turn) (w : WalWriter)
      → Sound gs w
      → Sound (gs ++ granted w.current_lsn (t ∷ [])) (heard t w)
  unfolding heard granted set_term
  heard-Sound gs (request r) w h = receive-Sound gs r w h
  heard-Sound gs timeout w h = rw (append-nil gs) h
  heard-Sound gs (term t) w h = rw (append-nil gs) h

  granted-heard :
      (t : Turn) (ts : List Turn) (w : WalWriter)
      → granted w.current_lsn (t ∷ ts)
        ≡ granted w.current_lsn (t ∷ []) ++ granted (heard t w).current_lsn ts
  unfolding granted heard receive set_term
  granted-heard (request r) ts w = elim (Bool-cases (is_noop r.entry)) [
    | inl skipped ↦ rw skipped refl
    | inr kept ↦ rw kept refl
  ]
  granted-heard timeout ts w = refl
  granted-heard (term t) ts w = refl

  turn-Sound :
      (gs : List (ℕ × ℕ)) (t : Turn) (w : WalWriter)
      → Sound gs w
      → Sound (gs ++ granted w.current_lsn (t ∷ [])) (turn c t w)
  turn-Sound gs t w h =
      let heard_sound = heard-Sound gs t w h in
      elim (turn_cases t w) [
        | inl same ↦ rw same heard_sound
        | inr done ↦
            rw done (flush-Sound (gs ++ granted w.current_lsn (t ∷ [])) (heard t w) heard_sound)
      ]

  granted-turn :
      (t : Turn) (ts : List Turn) (w : WalWriter)
      → granted w.current_lsn (t ∷ ts)
        ≡ granted w.current_lsn (t ∷ []) ++ granted (turn c t w).current_lsn ts
  granted-turn t ts w = rw (turn-current_lsn t w) (granted-heard t ts w)

  writer_task-Sound :
      (gs : List (ℕ × ℕ)) (ts : List Turn) (w : WalWriter)
      → Sound gs w
      → Sound (gs ++ granted w.current_lsn ts) (writer_task c ts w)
  unfolding writer_task
  writer_task-Sound gs [] w h = Sound-append gs (granted w.current_lsn []) w h
  writer_task-Sound gs (t ∷ ts) w h =
      let here = turn-Sound gs t w h in
      let later = writer_task-Sound (gs ++ granted w.current_lsn (t ∷ [])) ts (turn c t w) here in
      let split =
        append_assoc gs (granted w.current_lsn (t ∷ [])) (granted (turn c t w).current_lsn ts) in
      rw (granted-turn t ts w) (rw split at later)

  -- From a writer that has answered nothing and has nothing to write, every answer after any turns is
  -- an error, or what its request is to have: 0 for a no-op, and for a request to be written the LSN
  -- that it has in the order of these requests, from the writer's on.
  pub writer_task-IsGranted :
      (ts : List Turn) (w : WalWriter)
      → w.responses ≡ []
      → w.buffer ≡ []
      → All (IsGranted (granted w.current_lsn ts)) (writer_task c ts w).responses
  writer_task-IsGranted ts w none_yet none_waits =
      (writer_task-Sound [] ts w (rw none_yet tt, rw none_waits tt)).0

abbrev pub is_lsn : ℕ × ℕ → Bool
is_lsn (t, n) = not (n == 0)

-- The LSNs granted go up by one from the writer's on, as long as they fit.
pub granted-consecutive :
    (n : ℕ) (ts : List Turn)
    → n + length ts < 2 ^ 64
    → map (λ g. g.1) (keep is_lsn (granted n ts)) ≡ count_up n (length (keep is_lsn (granted n ts)))
unfolding granted count_up
granted-consecutive n [] h = refl
granted-consecutive n (request r ∷ ts) h = elim (Bool-cases (is_noop r.entry)) [
  | inl skipped ↦ rw skipped (granted-consecutive n ts (omega (arith, h)))
  | inr kept ↦
      let next : u64 (n + 1) ≡ suc n = omega (arith, h) in
      let positive : not (suc n == 0) ≡ true = ground arith in
      rw (kept, next, positive)
        (ap (◌∷◌ (suc n)) (granted-consecutive (suc n) ts (omega (arith, h))))
]
granted-consecutive n (timeout ∷ ts) h = granted-consecutive n ts (omega (arith, h))
granted-consecutive n (term t ∷ ts) h = granted-consecutive n ts (omega (arith, h))
