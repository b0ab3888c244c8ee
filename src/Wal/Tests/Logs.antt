-- ===== src/Wal/Tests/Logs.antt =====
-- wal/segment.rs, wal/writer.rs and wal/reader.rs at a log of one small entry.
use wolf_scale.Base.{
  ℕ, ◌≡◌, refl, true, false, none, some, List, [], ◌∷◌, ◌++◌, map, arith, All, take, get, put,
  to_le_bytes, from_le_bytes, last_up_to, range_from,
}
use wolf_scale.Error.{Result, ok}
use wolf_scale.Wal.Entry.{noop, drop_table}
use wolf_scale.Wal.Segment.{
  Segment, create, open_file, iterate_from, iterate, read_exact, frame, from_bytes, same_bytes,
}
use wolf_scale.Wal.Segment.Iterates.{Holds, frames, iterate_from-fuel, iterate-Holds}
use wolf_scale.Wal.Writer.{
  WalWriter, Directory, Turn, request, timeout, writer_task, flush_buffer, ensure_segment, store,
  turn, on_request, receive, new_entry,
}
use wolf_scale.Wal.Writer.Numbers.{granted, IsGranted, writer_task-IsGranted}
use wolf_scale.Wal.Writer.Answers.{asked, answered, flush_answers_all}
use wolf_scale.Wal.Writer.Files.{Ready, create-IsOpen, get_stored}
use wolf_scale.Wal.Writer.Durable.{IsKept, flush_buffer-IsKept}
use wolf_scale.Wal.Reader.{
  WalReader, WalEntryIterator, open_path, start_lsn, read_from, read_batch, first_result, next,
}
use wolf_scale.Wal.Reader.Batches.{read_batch-read_from}
use wolf_scale.Wal.Reader.Reads.{Reads, read_from-Reads}
use wolf_scale.Wal.Tests.{codec, codec-IsCodec, small_entry}

-- A header and the frame of an entry
abbrev log_file : List ℕ
log_file =
    87 ∷ 76 ∷ 70 ∷ 83 ∷ 67 ∷ 65 ∷ 76 ∷ 69 ∷ 1 ∷ 0 ∷ 0 ∷ 0 ∷ 1 ∷ 0 ∷ 0 ∷ 0 ∷ 0 ∷ 0 ∷ 0 ∷ 0 ∷ 0 ∷ 0
    ∷ 0 ∷ 0 ∷ 0 ∷ 0 ∷ 0 ∷ 0 ∷ 0 ∷ 0 ∷ 0 ∷ 0 ∷ 2 ∷ 0 ∷ 0 ∷ 0 ∷ 1 ∷ 7 ∷ 8 ∷ 2 ∷ 0 ∷ 0 ∷ 0 ∷ []

abbrev log_segment : Segment
log_segment = record {
  id = 1;
  file = log_file;
  write_pos = 43;
  header = record { first_lsn = 1; last_lsn = 0; entry_count = 0; sealed = false };
  max_size = 1048576;
  compression = true;
}

iterate_from-fuel_example :
    iterate_from codec 100 32 log_segment ≡ iterate_from codec 11 32 log_segment
iterate_from-fuel_example =
    iterate_from-fuel codec 11 100 32 log_segment (omega arith) (omega arith)

log_segment-Holds : Holds codec log_segment (small_entry ∷ [])
unfolding frame frames to_le_bytes
log_segment-Holds = record {
  at_end = refl;
  fits = ((codec-IsCodec, omega arith), tt);
  header_bytes = take 32 log_file;
  header_long = refl;
  whole = refl;
}

iterate-Holds_example : iterate codec log_segment ≡ map ok (small_entry ∷ [])
iterate-Holds_example = iterate-Holds codec log_segment (small_entry ∷ []) log_segment-Holds

abbrev log_directory : Directory
log_directory = (1, log_file) ∷ []

abbrev log_reader : WalReader
log_reader = record { segment_size_mb = 1; compression = true; segment_index = (1, 1) ∷ [] }

log-Reads : Reads codec log_directory log_reader log_reader.segment_index (small_entry ∷ [])
unfolding start_lsn last_up_to range_from open_path get open_file read_exact from_bytes same_bytes
    from_le_bytes
log-Reads = (
  log_segment,
  small_entry ∷ [],
  [],
  refl,
  iterate-Holds codec log_segment (small_entry ∷ []) log_segment-Holds,
  refl,
  tt,
  refl,
)

read_from-Reads_example : read_from codec log_directory log_reader 1 ≡ ok (small_entry ∷ [])
read_from-Reads_example =
    read_from-Reads codec log_directory log_reader 1 (small_entry ∷ []) tt log-Reads

read_batch-read_from_example :
    read_batch codec log_directory log_reader 1 3 ≡ ok (take 3 (small_entry ∷ []))
read_batch-read_from_example =
    read_batch-read_from codec log_directory log_reader 1 3 (small_entry ∷ []) (omega arith)
      (read_from-Reads codec log_directory log_reader 1 (small_entry ∷ []) tt log-Reads)

abbrev stream : WalEntryIterator
stream = record {
  current_segment = some log_segment;
  segment_iter = [];
  from_lsn = 1;
  started = true;
}

stream_gives : next codec log_directory log_reader stream ≡ (some (ok small_entry), stream)
unfolding next
stream_gives =
    rw (iterate-Holds codec log_segment (small_entry ∷ []) log_segment-Holds)
      (unfold first_result in refl)

abbrev idle : WalWriter
idle = record {
  segment_size_mb = 1;
  batch_size = 2;
  compression = true;
  node_id = "a";
  current_lsn = 0;
  current_term = 1;
  directory = [];
  current_segment = none;
  buffer = [];
  responses = [];
  notifications = 0;
}

abbrev turns : List Turn
turns =
    request (record { entry = drop_table "t"; response = 5; created = 7 })
    ∷ request (record { entry = noop; response = 6; created = 8 })
    ∷ []

writer_task-IsGranted_example :
    All
      (IsGranted (granted 0 (timeout ∷ turns)))
      (writer_task codec (timeout ∷ turns) idle).responses
writer_task-IsGranted_example = writer_task-IsGranted codec (timeout ∷ turns) idle refl refl

flush_answers_all_example :
    answered 5 (flush_buffer codec (writer_task codec turns idle)).responses ≡ asked 5 turns
unfolding writer_task turn on_request receive flush_buffer ensure_segment new_entry
flush_answers_all_example =
    flush_answers_all codec 5 turns idle (create 2 1 true, store (create 2 1 true) []) refl refl
      refl

abbrev busy : WalWriter
busy = record idle {
  current_lsn = 1;
  directory = store (create 9 1 true) [];
  current_segment = some (create 9 1 true);
  buffer = (small_entry, 5) ∷ [];
}

busy-Ready : Ready (create 9 1 true) busy.directory
unfolding create
busy-Ready = record {
  is_open = create-IsOpen 9 1 true (omega arith);
  behind = omega arith;
  backed = get_stored (create 9 1 true) [];
}

flush_buffer-IsKept_example :
    (acks : List (ℕ × Result ℕ)) × ((flush_buffer codec busy).responses ≡ [] ++ acks)
    × All (IsKept codec (flush_buffer codec busy).directory busy.buffer) acks
unfolding create get put
flush_buffer-IsKept_example =
    flush_buffer-IsKept codec busy (omega arith) (create 9 1 true) refl busy-Ready
      ((codec-IsCodec, λ z. ground arith), tt) (refl, tt) (tt, tt)
