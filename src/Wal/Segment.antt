-- ===== src/Wal/Segment.antt =====
-- wal/segment.rs: one file of the log. The file is the list of its bytes, and its reads and writes do
-- what `std::fs::File` documents; a write that the disk refuses is not modelled. What bincode,
-- lz4_flex and crc32fast do is a parameter, `Codec`. `list_segments` is the order of the names.
pub mod RoundTrip
pub mod Appends
pub mod Iterates
pub mod Seals
use wolf_scale.Base.{
  ℕ, zero, suc, ◌+◌, ◌-◌, ◌*◌, ◌%◌, ◌^◌, String, Bool, true, false, not, Option, none, some, List,
  [], ◌∷◌, ◌++◌, ltb, leb, ◌==◌, if◌then◌else◌, length, take, drop, replicate, to_le_bytes,
  from_le_bytes,
}
use wolf_scale.Error.{Error, Result, ok, err, io, wal_corrupted}
use wolf_scale.Error
use wolf_scale.Wal.Entry.{WalEntry, LogEntry}
use wolf_scale.Wal.Entry.Print.{decimal}
use Prim.Native.String

pub record Codec : Type 0 where
  pub serialize : WalEntry → List ℕ
  pub deserialize : List ℕ → Result WalEntry
  pub serialize_body : LogEntry → List ℕ
  pub compress : List ℕ → List ℕ
  pub decompress : List ℕ → Result (List ℕ)
  pub hash : List ℕ → ℕ

pub record SegmentHeader : Type 0 where
  pub first_lsn : ℕ
  pub last_lsn : ℕ
  pub entry_count : ℕ
  pub sealed : Bool

pub record Segment : Type 0 where
  pub id : ℕ
  pub file : List ℕ
  pub write_pos : ℕ
  pub header : SegmentHeader
  pub max_size : ℕ
  pub compression : Bool

abbrev pub header_size : ℕ
header_size = 32

-- `b"WLFSCALE"`
abbrev pub magic : List ℕ
magic = 87 ∷ 76 ∷ 70 ∷ 83 ∷ 67 ∷ 65 ∷ 76 ∷ 69 ∷ []

abbrev pub version : ℕ
version = 1

-- `SegmentHeader::new`
abbrev pub new_header : ℕ → SegmentHeader
new_header first_lsn = record {
  first_lsn = first_lsn;
  last_lsn = 0;
  entry_count = 0;
  sealed = false;
}

unfoldable pub to_bytes : SegmentHeader → List ℕ
to_bytes h =
    magic
    ++ (to_le_bytes 4 version
        ++ (to_le_bytes 8 h.first_lsn ++ (to_le_bytes 8 h.last_lsn ++ to_le_bytes 4 h.entry_count)))

-- `==` of byte slices
unfoldable pub same_bytes : List ℕ → List ℕ → Bool
same_bytes [] [] = true
same_bytes (b ∷ bs) (c ∷ cs) = if b == c then same_bytes bs cs else false
same_bytes _ _ = false

unfoldable pub from_bytes : List ℕ → Result SegmentHeader
from_bytes bytes =
    if ltb (length bytes) header_size
    then err (Error.wal "Segment header too short")
    else if not (same_bytes (take 8 bytes) magic)
    then err (Error.wal "Invalid segment magic bytes")
    else if not (from_le_bytes (take 4 (drop 8 bytes)) == version)
    then err (
        Error.wal (
          Prim.Native.String.◌++◌ "Unsupported segment version: "
            (decimal (from_le_bytes (take 4 (drop 8 bytes))))))
    else ok (record {
      first_lsn = from_le_bytes (take 8 (drop 12 bytes));
      last_lsn = from_le_bytes (take 8 (drop 20 bytes));
      entry_count = from_le_bytes (take 4 (drop 28 bytes));
      sealed = false;
    })

-- Bytes written from a position on; a gap behind the end is filled with zeros.
unfoldable pub write_at : ℕ → List ℕ → List ℕ → List ℕ
write_at pos bytes file =
    take pos file ++ (replicate (pos - length file) 0 ++ (bytes ++ drop (pos + length bytes) file))

-- `read_exact` from a position on
unfoldable pub read_exact : ℕ → ℕ → List ℕ → Result (List ℕ)
read_exact pos n file = if leb (pos + n) (length file) then ok (take n (drop pos file)) else err io

abbrev pub write_header : Segment → Segment
write_header s = record s { file = write_at 0 (to_bytes s.header) s.file }

unfoldable pub create : ℕ → ℕ → Bool → Segment
create first_lsn max_size_mb compression = write_header (record {
  id = first_lsn;
  file = [];
  write_pos = header_size;
  header = new_header first_lsn;
  max_size = max_size_mb * 1024 * 1024;
  compression = compression;
})

module _ {A B : Type 0} where
  abbrev pub and_then : Result A → (A → Result B) → Result B
  and_then (ok a) f = f a
  and_then (err e) f = err e

unfoldable pub open_file : List ℕ → ℕ → Bool → Result Segment
open_file file max_size_mb compression = and_then (read_exact 0 header_size file) (λ bytes.
    and_then (from_bytes bytes) (λ h. ok (record {
      id = h.first_lsn;
      file = file;
      write_pos = length file;
      header = h;
      max_size = max_size_mb * 1024 * 1024;
      compression = compression;
    })))

unfoldable pub has_space : ℕ → Segment → Bool
has_space additional s = leb (s.write_pos + additional) s.max_size

unfoldable pub seal : Segment → Segment
seal s = write_header (record s { header = record s.header { sealed = true } })

module _ (c : Codec) where
  abbrev pub encode : Bool → WalEntry → List ℕ
  encode compression e = if compression then c.compress (c.serialize e) else c.serialize e

  abbrev pub flag_of : Bool → ℕ
  flag_of b = if b then 1 else 0

  -- [length: u32][compressed: u8][data][checksum: u32]
  unfoldable pub frame : Bool → List ℕ → List ℕ
  frame compression body =
      to_le_bytes 4 (length body % 2 ^ 32)
      ++ ((flag_of compression ∷ []) ++ (body ++ to_le_bytes 4 (c.hash body)))

  abbrev pub required : List ℕ → ℕ
  required body = 4 + 1 + length body + 4

  abbrev pub appended : WalEntry → List ℕ → Segment → Segment
  appended e body s = record s {
    file = write_at s.write_pos (frame s.compression body) s.file;
    write_pos = s.write_pos + required body;
    header = record s.header {
      entry_count = (s.header.entry_count + 1) % 2 ^ 32;
      last_lsn = e.header.lsn;
    };
  }

  unfoldable pub append : WalEntry → Segment → Result ℕ × Segment
  append e s =
      let body = encode s.compression e in
      if ltb s.max_size (s.write_pos + required body)
      then (err (Error.wal "Segment full"), s)
      else (ok s.write_pos, appended e body s)

  abbrev pub open_data : List ℕ → List ℕ → Result WalEntry
  open_data flag body =
      and_then (if from_le_bytes flag == 0 then ok body else c.decompress body) c.deserialize

  unfoldable pub read_at : ℕ → List ℕ → Result WalEntry
  read_at pos file = and_then (read_exact pos 4 file) (λ len_bytes.
      let n = from_le_bytes len_bytes in
      and_then (read_exact (pos + 4) 1 file) (λ flag.
        and_then (read_exact (pos + 5) n file) (λ body.
          and_then (read_exact (pos + 5 + n) 4 file) (λ sum.
            if from_le_bytes sum == c.hash body
            then open_data flag body
            else err (wal_corrupted 0 "Checksum mismatch")))))

  -- What is left of the iterator from a position on. A round moves on by nine bytes at least, so
  -- the bytes that are left are fuel enough.
  unfoldable pub iterate_from : ℕ → ℕ → Segment → List (Result WalEntry)
  iterate_from zero pos s = []
  iterate_from (suc fuel) pos s = elim (leb s.write_pos pos) [
    | true ↦ []
    | false ↦ elim (read_at pos s.file) [
      | err x ↦ err x ∷ []
      | ok e ↦ ok e ∷ iterate_from fuel (pos + required (encode s.compression e)) s
    ]
  ]

  -- `iter().collect()`
  abbrev pub iterate : Segment → List (Result WalEntry)
  iterate s = iterate_from s.write_pos header_size s
