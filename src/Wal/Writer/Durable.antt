-- ===== src/Wal/Writer/Durable.antt =====
-- What a flush of wal/writer.rs acknowledges can be read from the directory.
use wolf_scale.Base.{
  ℕ, ◌≤◌, ◌<◌, ◌≡◌, refl, sym, some, List, [], ◌∷◌, ◌++◌, arith, inl, inr, All, All-weaken, Member,
  append-nil,
}
use wolf_scale.Error.{Result, ok, err}
use wolf_scale.Wal.Entry.{WalEntry}
use wolf_scale.Wal.Segment.{Codec, Segment, append}
use wolf_scale.Wal.Writer.{
  WalWriter, Directory, rotate, answer, write_one, write_entries, flush_into, flush_buffer,
  ensure_segment,
}
use wolf_scale.Wal.Writer.Files.{
  Ready, Stored, Fresh, Writable, rotate-Ready, rotate-Stored, rotate-Fresh, written-Ready,
  written-Stored, written-Fresh, appended-Stored,
}

-- No file has the LSN of a waiting entry for its name.
abbrev pub FreshAll : Directory → List (WalEntry × ℕ) → Type 0
FreshAll d es = All (λ b. Fresh d b.0.header.lsn) es

abbrev pub Increasing : List (WalEntry × ℕ) → Type 0
Increasing [] = Unit {0}
Increasing ((e, t) ∷ es) = All (λ b. e.header.lsn < b.0.header.lsn) es × Increasing es

-- An answer without error is the LSN of an entry that was waiting on that channel and can be read.
abbrev pub IsKept : Codec → Directory → List (WalEntry × ℕ) → ℕ × Result ℕ → Type 0
IsKept c d es (t, ok n) = (e : WalEntry) × Member (e, t) es × (e.header.lsn ≡ n) × Stored c d e
IsKept c d es (t, err _) = Unit {0}

IsKept-later :
    (c : Codec) (d : Directory) (b : WalEntry × ℕ) (es : List (WalEntry × ℕ)) (a : ℕ × Result ℕ)
    → IsKept c d es a
    → IsKept c d (b ∷ es) a
IsKept-later c d b es (t, ok n) (e, m, same, there) = (e, inr m, same, there)
IsKept-later c d b es (t, err _) k = tt

module _ (c : Codec) (w : WalWriter) (roomy : 1 ≤ w.segment_size_mb) where
  answer-IsKept :
      (d : Directory) (e : WalEntry) (t : ℕ) (es : List (WalEntry × ℕ)) (r : Result ℕ)
      → ((pos : ℕ) → r ≡ ok pos → Stored c d e)
      → IsKept c d ((e, t) ∷ es) (t, answer e.header.lsn r)
  answer-IsKept d e t es (ok pos) keeps = (e, inl refl, refl, keeps pos refl)
  answer-IsKept d e t es (err _) keeps = tt

  All-Fresh :
      (e : WalEntry) (es : List (WalEntry × ℕ)) (s : Segment) (d : Directory)
      → Ready s d
      → FreshAll d es
      → All (λ b. e.header.lsn < b.0.header.lsn) es
      → FreshAll (write_one c w e s d).1.1 es
  unfolding write_one
  All-Fresh e [] s d h f above = tt
  All-Fresh e ((x, t) ∷ es) s d h (f, fs) (a, above) =
      let lsn = e.header.lsn in
      let (s1, d1) = rotate w lsn s d in
      (
        written-Fresh c w roomy e s1 d1 x.header.lsn (rotate-Ready c w roomy lsn s d h)
            (rotate-Fresh c w roomy lsn x.header.lsn s d h a f),
        All-Fresh e es s d h fs above,
      )

  write_one-Ready :
      (e : WalEntry) (s : Segment) (d : Directory)
      → Ready s d
      → Ready (write_one c w e s d).1.0 (write_one c w e s d).1.1
  unfolding write_one
  write_one-Ready e s d h =
      let (s1, d1) = rotate w e.header.lsn s d in
      written-Ready c w roomy e s1 d1 (rotate-Ready c w roomy e.header.lsn s d h)

  write_one-Stored :
      (e x : WalEntry) (s : Segment) (d : Directory)
      → Ready s d
      → Fresh d e.header.lsn
      → Stored c d x
      → Stored c (write_one c w e s d).1.1 x
  unfolding write_one
  write_one-Stored e x s d h f old =
      let (s1, d1) = rotate w e.header.lsn s d in
      written-Stored c w roomy e x s1 d1 (rotate-Ready c w roomy e.header.lsn s d h)
        (rotate-Stored c w roomy e.header.lsn s d x h f old)

  pub record Outcome (es : List (WalEntry × ℕ)) (s : Segment) (d : Directory) : Type 0 where
    pub kept :
        All (IsKept c (write_entries c w es s d).directory es) (write_entries c w es s d).responses
    pub ready : Ready (write_entries c w es s d).segment (write_entries c w es s d).directory
    pub stays : (x : WalEntry) → Stored c d x → Stored c (write_entries c w es s d).directory x

  pub write_entries-Outcome :
      (es : List (WalEntry × ℕ)) (s : Segment) (d : Directory)
      → Ready s d
      → All (λ b. Writable c b.0) es
      → FreshAll d es
      → Increasing es
      → Outcome es s d
  unfolding write_entries write_one
  write_entries-Outcome [] s d h fits fresh up = record {
    kept = tt;
    ready = h;
    stays = λ x there. there;
  }
  write_entries-Outcome ((e, t) ∷ es) s d h (fit, fits) (f, fresh) (above, up) =
      let lsn = e.header.lsn in
      let (s1, d1) = rotate w lsn s d in
      let (r, (s2, d2)) = write_one c w e s d in
      let there = rotate-Ready c w roomy lsn s d h in
      let later =
        write_entries-Outcome es s2 d2 (write_one-Ready e s d h) fits
          (All-Fresh e es s d h fresh above) up in
      let final = (write_entries c w es s2 d2).directory in
      record {
        kept = (
          answer-IsKept final e t es (append c e s1).0
              (λ pos done. later.stays e (appended-Stored c w roomy e s1 d1 pos there fit done)),
          All-weaken (IsKept c final es) (IsKept c final ((e, t) ∷ es))
              (write_entries c w es s2 d2).responses (IsKept-later c final (e, t) es) later.kept,
        );
        ready = later.ready;
        stays = λ x old. later.stays x (write_one-Stored e x s d h f old);
      }

  flush_into-IsKept :
      (es : List (WalEntry × ℕ)) (s : Segment)
      → Outcome w.buffer s w.directory
      → (acks : List (ℕ × Result ℕ)) × ((flush_into c es (ok (s, w.directory)) w).responses
          ≡ w.responses ++ acks)
        × All (IsKept c (flush_into c es (ok (s, w.directory)) w).directory w.buffer) acks
  flush_into-IsKept [] s h = ([], sym (append-nil w.responses), tt)
  flush_into-IsKept (b ∷ es) s h =
      ((write_entries c w w.buffer s w.directory).responses, refl, h.kept)

  ensure_current :
      (s : Segment) → w.current_segment ≡ some s → ensure_segment w ≡ ok (s, w.directory)
  unfolding ensure_segment
  ensure_current s h = ground (arith, h)

  -- A flush adds its answers, and each that is no error is the LSN of an entry of the buffer, which
  -- is on its channel and which the files of the directory now hold; if the current segment is
  -- backed by its file, the LSNs of the buffer go up and none is the name of a file, and each entry
  -- comes back from the codec and is shorter than 4 GiB.
  pub flush_buffer-IsKept :
      (s : Segment)
      → w.current_segment ≡ some s
      → Ready s w.directory
      → All (λ b. Writable c b.0) w.buffer
      → FreshAll w.directory w.buffer
      → Increasing w.buffer
      → (acks : List (ℕ × Result ℕ)) × ((flush_buffer c w).responses ≡ w.responses ++ acks)
        × All (IsKept c (flush_buffer c w).directory w.buffer) acks
  unfolding flush_buffer
  flush_buffer-IsKept s current h fits fresh up =
      let done = write_entries-Outcome w.buffer s w.directory h fits fresh up in
      simp (ensure_current s current) (flush_into-IsKept w.buffer s done)
