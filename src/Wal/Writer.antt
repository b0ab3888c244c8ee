-- ===== src/Wal/Writer.antt =====
-- wal/writer.rs: the writer task. The directory holds each segment's bytes under the number in its
-- file name, wal/mod.rs' `segment_path`; the names have a fixed width, so that their order is that
-- of the numbers. A turn of the task is a request or a timeout, and `set_term` comes between turns.
-- A request's channel is a number, and what was sent on it a row of `responses`. The clock is the
-- argument `created` of a request; when a timeout comes is left open.
pub mod Numbers
pub mod Answers
pub mod Files
pub mod Durable
use wolf_scale.Base.{
  ℕ, zero, suc, ◌+◌, String, Bool, true, false, not, ◌&&◌, Option, none, some, List, [], ◌∷◌, ◌++◌,
  leb, if◌then◌else◌, length, last?, u32, u64, put, ◌==◌,
}
use wolf_scale.Error.{Result, ok, err}
use wolf_scale.Wal.Entry.{WalEntry, LogEntry, is_noop}
use wolf_scale.Wal.Segment.{
  Codec, Segment, create, open_file, append, has_space, seal, iterate, and_then,
}

abbrev pub Directory : Type 0
Directory = List (ℕ × List ℕ)

-- `WriterState`, `WriterInner` and the configuration
pub record WalWriter : Type 0 where
  pub segment_size_mb : ℕ
  pub batch_size : ℕ
  pub compression : Bool
  pub node_id : String
  pub current_lsn : ℕ
  pub current_term : ℕ
  pub directory : Directory
  pub current_segment : Option Segment
  pub buffer : List (WalEntry × ℕ)
  pub responses : List (ℕ × Result ℕ)
  pub notifications : ℕ

pub record WriteRequest : Type 0 where
  pub entry : LogEntry
  pub response : ℕ
  pub created : ℕ

-- The outcome of the loop of a flush
pub record Written : Type 0 where
  pub segment : Segment
  pub directory : Directory
  pub responses : List (ℕ × Result ℕ)

module _ (c : Codec) where
  -- `WalEntry::new` of wal/entry.rs
  unfoldable pub new_entry : ℕ → ℕ → String → ℕ → LogEntry → WalEntry
  new_entry lsn term origin_node created entry = record {
    header = record {
      lsn = lsn;
      term = term;
      created = created;
      origin_node = origin_node;
      checksum = c.hash (c.serialize_body entry);
      body_size = u32 (length (c.serialize_body entry));
      compressed = false;
    };
    entry = entry;
  }

  unfoldable pub verify_checksum : WalEntry → Bool
  verify_checksum e = c.hash (c.serialize_body e.entry) == e.header.checksum

  -- The last LSN that the iterator brings, or the one so far.
  unfoldable pub last_read : List (Result WalEntry) → ℕ → ℕ
  last_read [] lsn = lsn
  last_read (ok e ∷ rs) lsn = last_read rs e.header.lsn
  last_read (err x ∷ rs) lsn = last_read rs lsn

  unfoldable pub find_last_lsn : Directory → Result ℕ
  find_last_lsn directory = elim (last? directory) [
    | none ↦ ok 0
    | some (_, file) ↦
        and_then (open_file file 64 true) (λ s. ok (last_read (iterate c s) s.header.first_lsn))
  ]

  -- `with_tuning`
  unfoldable pub start : ℕ → ℕ → Bool → String → Directory → Result WalWriter
  start segment_size_mb batch_size compression node_id directory =
      and_then (find_last_lsn directory) (λ last_lsn. ok (record {
        segment_size_mb = segment_size_mb;
        batch_size = batch_size;
        compression = compression;
        node_id = node_id;
        current_lsn = last_lsn;
        current_term = 1;
        directory = directory;
        current_segment = none;
        buffer = [];
        responses = [];
        notifications = 0;
      }))

abbrev pub store : Segment → Directory → Directory
store s directory = put s.id s.file directory

-- `Segment::create` at `segment_path(lsn)`
abbrev pub create_at : ℕ → WalWriter → Segment
create_at lsn w = create lsn w.segment_size_mb w.compression

abbrev pub reuse : WalWriter → Segment → Result (Segment × Directory)
reuse w s =
    if not s.header.sealed && has_space 8192 s
    then ok (s, w.directory)
    else let new = create_at (u64 (w.current_lsn + 1)) w in ok (new, store new w.directory)

unfoldable pub ensure_segment : WalWriter → Result (Segment × Directory)
ensure_segment w = elim w.current_segment [
  | some s ↦ ok (s, w.directory)
  | none ↦ elim (last? w.directory) [
    | some (_, file) ↦ and_then (open_file file w.segment_size_mb w.compression) (reuse w)
    | none ↦ let new = create_at (u64 (w.current_lsn + 1)) w in ok (new, store new w.directory)
  ]
]

unfoldable pub rotate : WalWriter → ℕ → Segment → Directory → Segment × Directory
rotate w lsn s directory =
    if has_space 8192 s
    then (s, directory)
    else let new = create_at lsn w in (new, store new (store (seal s) directory))

abbrev pub answer : ℕ → Result ℕ → Result ℕ
answer lsn (ok _) = ok lsn
answer lsn (err x) = err x

module _ (c : Codec) where
  -- One round of the loop of a flush: rotate, then append.
  unfoldable pub write_one :
      WalWriter → WalEntry → Segment → Directory → Result ℕ × (Segment × Directory)
  write_one w e s directory =
      let (segment, files) = rotate w e.header.lsn s directory in
      let (r, written) = append c e segment in
      (answer e.header.lsn r, (written, store written files))

  unfoldable pub write_entries : WalWriter → List (WalEntry × ℕ) → Segment → Directory → Written
  write_entries w [] s directory = record { segment = s; directory = directory; responses = [] }
  write_entries w ((e, response) ∷ rest) s directory =
      let (r, (segment, files)) = write_one w e s directory in
      let later = write_entries w rest segment files in
      record later { responses = (response, r) ∷ later.responses }

  abbrev pub flushed : WalWriter → Segment × Directory → WalWriter
  flushed w (s, directory) =
      let done = write_entries w w.buffer s directory in
      record w {
        directory = done.directory;
        current_segment = some done.segment;
        buffer = [];
        responses = w.responses ++ done.responses;
        notifications = w.notifications + 1;
      }

  -- An error of `ensure_segment` leaves everything as it was.
  abbrev pub flush_into : List (WalEntry × ℕ) → Result (Segment × Directory) → WalWriter → WalWriter
  flush_into [] there w = w
  flush_into (_ ∷ _) (ok there) w = flushed w there
  flush_into (_ ∷ _) (err _) w = w

  unfoldable pub flush_buffer : WalWriter → WalWriter
  flush_buffer w = flush_into w.buffer (ensure_segment w) w

  unfoldable pub receive : WriteRequest → WalWriter → WalWriter
  receive r w =
      if is_noop r.entry
      then record w { responses = w.responses ++ ((r.response, ok 0) ∷ []) }
      else let lsn = u64 (w.current_lsn + 1) in
        record w {
          current_lsn = lsn;
          buffer =
              w.buffer
              ++ ((new_entry c lsn w.current_term w.node_id r.created r.entry, r.response) ∷ []);
        }

  unfoldable pub on_request : WriteRequest → WalWriter → WalWriter
  on_request r w =
      let next = receive r w in
      if leb next.batch_size (length next.buffer) then flush_buffer next else next

  unfoldable pub on_timeout : WalWriter → WalWriter
  on_timeout w = if length w.buffer == 0 then w else flush_buffer w

unfoldable pub set_term : ℕ → WalWriter → WalWriter
set_term term w = record w { current_term = term }

pub data Turn : Type 0 where
  request : WriteRequest → Turn
  timeout : Turn
  term : ℕ → Turn

module _ (c : Codec) where
  -- `writer_task`, one turn and the loop
  unfoldable pub turn : Turn → WalWriter → WalWriter
  turn (request r) w = on_request c r w
  turn timeout w = on_timeout c w
  turn (term t) w = set_term t w

  unfoldable pub writer_task : List Turn → WalWriter → WalWriter
  writer_task [] w = w
  writer_task (t ∷ ts) w = writer_task ts (turn t w)
