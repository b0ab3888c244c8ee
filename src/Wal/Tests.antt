-- ===== src/Wal/Tests.antt =====
-- The theorems on wal/entry.rs and wal/segment.rs at small entries.
mod Logs
use wolf_scale.Error.{ok}
use wolf_scale.Wal.Segment.{
  Codec, Segment, SegmentHeader, new_header, to_bytes, from_bytes, append, read_at,
}
use wolf_scale.Wal.Segment.RoundTrip.{from_bytes_lem}
use wolf_scale.Wal.Segment.Appends.{
  IsCodec, IsOpen, append-IsOpen, read_at-appended, append_keeps_entries,
}
use wolf_scale.Wal.Entry.{WalEntry}
use wolf_scale.Base.{refl, true, false, ◌^◌, ◌%◌, ◌≡◌, some, none, [], ◌∷◌, length, arith}
use Prim.Native.String.{◌++◌}
use wolf_scale.Wal.Entry.{
  LogEntry, nil, cons, string, noop, transaction, drop_table, delete, string_key,
}
use wolf_scale.Wal.Entry.Print.{value_to_sql, to_sql, escape}
use wolf_scale.Wal.Entry.Print.Literals.{read_text, read_literal, read_text-value_to_sql}
use wolf_scale.Wal.Entry.Print.Statements.{weight, length-to_sql}

read_text-value_to_sql_example :
    read_text (λ c. c) (value_to_sql (string "it's") ++ ", 1)") ≡ some ("it's", ", 1)")
read_text-value_to_sql_example =
    read_text-value_to_sql (λ c. c) "it's" ", 1)"
      ((λ e. ground arith), ((λ e. ground arith), ((λ e. ground arith), ((λ e. ground arith), tt))))
      (λ e. ground arith)

-- A backslash at the end of a text takes the closing quote with it.
not_closed : read_text (λ c. c) (value_to_sql (string "a\\")) ≡ none
unfolding read_text value_to_sql escape read_literal
not_closed = refl

abbrev batch : LogEntry
batch =
    transaction
      (cons (drop_table "t") (cons noop (cons (delete "u" (string_key "k") ("id" ∷ [])) nil)))

abbrev header : SegmentHeader
header = record { first_lsn = 70000; last_lsn = 70004; entry_count = 5; sealed = true }

from_bytes_lem_example : from_bytes (to_bytes header) ≡ ok (record header { sealed = false })
from_bytes_lem_example = from_bytes_lem header (omega arith) (omega arith) (omega arith)

abbrev pub small_entry : WalEntry
small_entry = record {
  header = record {
    lsn = 1;
    term = 1;
    created = 0;
    origin_node = "a";
    checksum = 0;
    body_size = 0;
    compressed = false;
  };
  entry = noop;
}

-- A codec that knows one entry.
abbrev pub codec : Codec
codec = record {
  serialize = λ e. 7 ∷ 8 ∷ [];
  deserialize = λ bs. ok small_entry;
  serialize_body = λ b. [];
  compress = λ bs. bs;
  decompress = λ bs. ok bs;
  hash = λ bs. length bs % 2 ^ 32;
}

pub codec-IsCodec : IsCodec codec small_entry
codec-IsCodec = record {
  deserialize-serialize = refl;
  decompress-compress = λ bs. refl;
  hash-lt = λ bs. omega arith;
}

abbrev blank : Segment
blank = record {
  id = 1;
  file = 1 ∷ 2 ∷ 3 ∷ [];
  write_pos = 3;
  header = new_header 1;
  max_size = 100;
  compression = true;
}

blank-IsOpen : IsOpen blank
blank-IsOpen = record { at_end = refl; bounded = omega arith }

abbrev once : Segment
once = (append codec small_entry blank).1

once-read : read_at codec 3 once.file ≡ ok small_entry
unfolding append
once-read = read_at-appended codec small_entry blank 3 codec-IsCodec blank-IsOpen (omega arith) refl
