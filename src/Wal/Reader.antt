-- ===== src/Wal/Reader.antt =====
-- wal/reader.rs: reading the log back by LSN. A path is the number in the file's name; the
-- directory is an argument, as it is when an operation is called.
pub mod Batches
pub mod Reads
pub mod Streams
use wolf_scale.Base.{
  ℕ, zero, suc, ◌+◌, Bool, true, false, Option, none, some, List, [], ◌∷◌, ◌++◌, leb, ltb,
  if◌then◌else◌, length, last?, put, range_from, last_up_to, keep,
}
use wolf_scale.Base
use wolf_scale.Error.{Result, ok, err, io}
use wolf_scale.Wal.Entry.{WalEntry}
use wolf_scale.Wal.Segment.{Codec, Segment, open_file, iterate, and_then}
use wolf_scale.Wal.Writer.{Directory}

pub record WalReader : Type 0 where
  pub segment_size_mb : ℕ
  pub compression : Bool
  pub segment_index : List (ℕ × ℕ)

pub record SegmentInfo : Type 0 where
  pub id : ℕ
  pub first_lsn : ℕ
  pub last_lsn : ℕ
  pub entry_count : ℕ
  pub sealed : Bool

-- `Segment::open` at a path
unfoldable pub open_path : Directory → WalReader → ℕ → Result Segment
open_path d r path = elim (Base.get path d) [
  | none ↦ err io
  | some file ↦ open_file file r.segment_size_mb r.compression
]

-- The index as far as the files could be opened
unfoldable pub index_files :
    Directory → WalReader → Directory → List (ℕ × ℕ) → Result (Unit {0}) × List (ℕ × ℕ)
index_files d r [] index = (ok tt, index)
index_files d r ((path, _) ∷ files) index = elim (open_path d r path) [
  | ok s ↦ index_files d r files (put s.header.first_lsn path index)
  | err x ↦ (err x, index)
]

unfoldable pub refresh_index : Directory → WalReader → Result (Unit {0}) × WalReader
refresh_index d r =
    let (done, index) = index_files d r d [] in (done, record r { segment_index = index })

unfoldable pub new : Directory → ℕ → Bool → Result WalReader
new d segment_size_mb compression =
    let (done, r) = refresh_index d (record {
      segment_size_mb = segment_size_mb;
      compression = compression;
      segment_index = [];
    }) in
    and_then done (λ _. ok r)

abbrev pub key_of : List (ℕ × ℕ) → Option ℕ
key_of [] = none
key_of ((k, _) ∷ _) = some k

unfoldable pub first_lsn : WalReader → Option ℕ
first_lsn r = key_of r.segment_index

unfoldable pub find_segment : ℕ → WalReader → Option ℕ
find_segment lsn r = elim (last_up_to lsn none r.segment_index) [
  | none ↦ none
  | some (_, path) ↦ some path
]

-- The first LSN of the segment to start from: the last that is not above, or the first there is.
unfoldable pub start_lsn : ℕ → WalReader → Option ℕ
start_lsn from_lsn r = elim (last_up_to from_lsn none r.segment_index) [
  | some (lsn, _) ↦ some lsn
  | none ↦ key_of r.segment_index
]

abbrev pub files_from : ℕ → WalReader → List (ℕ × ℕ)
files_from from_lsn r = elim (start_lsn from_lsn r) [
  | some lsn ↦ range_from lsn r.segment_index
  | none ↦ []
]

-- The entries from an LSN on, in front of an error.
unfoldable pub collect : ℕ → List (Result WalEntry) → List WalEntry → Result (List WalEntry)
collect from_lsn [] entries = ok entries
collect from_lsn (err x ∷ rs) entries = err x
collect from_lsn (ok e ∷ rs) entries =
    collect from_lsn rs (if leb from_lsn e.header.lsn then entries ++ (e ∷ []) else entries)

-- The same, up to a number of entries: whether to stop, and the entries.
unfoldable pub collect_batch :
    ℕ → ℕ → List (Result WalEntry) → List WalEntry → Result (Bool × List WalEntry)
collect_batch from_lsn max [] entries = ok (false, entries)
collect_batch from_lsn max (err x ∷ rs) entries = err x
collect_batch from_lsn max (ok e ∷ rs) entries =
    let more = entries ++ (e ∷ []) in
    let skipped = collect_batch from_lsn max rs entries in
    let taken = collect_batch from_lsn max rs more in
    if leb from_lsn e.header.lsn
    then if leb max (length more) then ok (true, more) else taken
    else skipped

abbrev pub last_of : List (Result WalEntry) → Option ℕ → Option ℕ
last_of [] last = last
last_of (ok e ∷ rs) last = last_of rs (some e.header.lsn)
last_of (err _ ∷ rs) last = last_of rs last

abbrev pub head? : List WalEntry → Option WalEntry
head? [] = none
head? (e ∷ _) = some e

module _ (c : Codec) (d : Directory) (r : WalReader) where
  unfoldable pub last_lsn : Result (Option ℕ)
  last_lsn = elim (last? r.segment_index) [
    | none ↦ ok none
    | some (_, path) ↦ and_then (open_path d r path) (λ s. ok (last_of (iterate c s) none))
  ]

  unfoldable pub read_files : ℕ → List (ℕ × ℕ) → List WalEntry → Result (List WalEntry)
  read_files from_lsn [] entries = ok entries
  read_files from_lsn ((_, path) ∷ files) entries =
      and_then (open_path d r path)
        (λ s. and_then (collect from_lsn (iterate c s) entries) (read_files from_lsn files))

  unfoldable pub read_from : ℕ → Result (List WalEntry)
  read_from from_lsn = read_files from_lsn (files_from from_lsn r) []

  unfoldable pub read_range : ℕ → ℕ → Result (List WalEntry)
  read_range from_lsn to_lsn =
      and_then (read_from from_lsn) (λ es. ok (keep (λ e. leb e.header.lsn to_lsn) es))

  unfoldable pub batch_files : ℕ → ℕ → List (ℕ × ℕ) → List WalEntry → Result (List WalEntry)
  batch_files from_lsn max [] entries = ok entries
  batch_files from_lsn max ((_, path) ∷ files) entries = and_then (open_path d r path) (λ s.
      and_then (collect_batch from_lsn max (iterate c s) entries) (λ (stop, more).
        let rest = batch_files from_lsn max files more in if stop then ok more else rest))

  unfoldable pub read_batch : ℕ → ℕ → Result (List WalEntry)
  read_batch from_lsn max_entries = batch_files from_lsn max_entries (files_from from_lsn r) []

  unfoldable pub get : ℕ → Result (Option WalEntry)
  get lsn = and_then (read_range lsn lsn) (λ es. ok (head? es))

  unfoldable pub count_files : List (ℕ × ℕ) → ℕ → Result ℕ
  count_files [] n = ok n
  count_files ((_, path) ∷ files) n =
      and_then (open_path d r path) (λ s. count_files files (n + s.header.entry_count))

  unfoldable pub count : Result ℕ
  count = count_files r.segment_index 0

  unfoldable pub info_files : List (ℕ × ℕ) → Result (List SegmentInfo)
  info_files [] = ok []
  info_files ((first, path) ∷ files) = and_then (open_path d r path) (λ s.
      and_then (info_files files) (λ infos. ok (
        record {
          id = s.id;
          first_lsn = first;
          last_lsn = s.header.last_lsn;
          entry_count = s.header.entry_count;
          sealed = s.header.sealed;
        }
        ∷ infos)))

  unfoldable pub segments : Result (List SegmentInfo)
  segments = info_files r.segment_index

-- `WalEntryIterator`: the file that is read, and those behind it
pub record WalEntryIterator : Type 0 where
  pub current_segment : Option Segment
  pub segment_iter : List (ℕ × ℕ)
  pub from_lsn : ℕ
  pub started : Bool

unfoldable pub stream_from : ℕ → WalReader → WalEntryIterator
stream_from from_lsn r = record {
  current_segment = none;
  segment_iter = elim (start_lsn from_lsn r) [
    | some lsn ↦ range_from lsn r.segment_index
    | none ↦ range_from from_lsn r.segment_index
  ];
  from_lsn = from_lsn;
  started = false;
}

-- `Result::ok`
abbrev pub opened : Result Segment → Option Segment
opened (ok s) = some s
opened (err _) = none

-- The first result that a round over a segment returns
unfoldable pub first_result : ℕ → List (Result WalEntry) → Option (Result WalEntry)
first_result from_lsn [] = none
first_result from_lsn (err x ∷ rs) = some (err x)
first_result from_lsn (ok e ∷ rs) =
    let rest = first_result from_lsn rs in if leb from_lsn e.header.lsn then some (ok e) else rest

-- A result is returned where the iterator stands, else it goes on.
abbrev pub give :
    Option (Result WalEntry)
    → WalEntryIterator
    → Option (Result WalEntry) × WalEntryIterator
    → Option (Result WalEntry) × WalEntryIterator
give (some result) here onward = (some result, here)
give none here onward = onward

module _ (c : Codec) where
  abbrev pub resume :
      Option Segment
      → WalEntryIterator
      → Option (Result WalEntry) × WalEntryIterator
      → Option (Result WalEntry) × WalEntryIterator
  resume none i onward = onward
  resume (some s) i onward = give (first_result i.from_lsn (iterate c s)) i onward

  abbrev pub enter :
      Option Segment
      → List (ℕ × ℕ)
      → WalEntryIterator
      → (WalEntryIterator → Option (Result WalEntry) × WalEntryIterator)
      → Option (Result WalEntry) × WalEntryIterator
  enter none files i onward = (none, record i { segment_iter = files })
  enter (some s) files i onward =
      let here = record i { current_segment = some s; segment_iter = files } in
      resume (some s) here (onward here)

module _ (c : Codec) (d : Directory) (r : WalReader) where
  -- The files behind the current one, each opened in its turn until one returns a result.
  unfoldable pub advance :
      List (ℕ × ℕ) → WalEntryIterator → Option (Result WalEntry) × WalEntryIterator
  advance [] i = (none, record i { segment_iter = [] })
  advance ((_, path) ∷ files) i = enter c (opened (open_path d r path)) files i (advance files)

  -- `next`
  unfoldable pub next : WalEntryIterator → Option (Result WalEntry) × WalEntryIterator
  next i =
      let onward = advance i.segment_iter (record i { started = true }) in
      if i.started then resume c i.current_segment i onward else onward
