-- ===== src/Replication/Protocol/Frame.antt =====
-- `FrameHeader` of replication/protocol.rs. The checksum of `crc32fast` is a parameter.
use wolf_scale.Base.{
  ℕ, ◌^◌, ◌<◌, ◌≡◌, List, ◌++◌, arith, length, length-append, take, drop, replicate, take-append,
  drop-append, to_le_bytes, from_le_bytes, length-to_le_bytes, from_le_bytes-to_le_bytes,
}

pub record FrameHeader : Type 0 where
  pub length_field : ℕ  -- `length`
  pub checksum : ℕ

abbrev pub frame_size : ℕ
frame_size = 16

-- `FrameHeader::new`
unfoldable pub new : (List ℕ → ℕ) → List ℕ → FrameHeader
new crc32 bytes = record { length_field = length bytes; checksum = crc32 bytes }

unfoldable pub to_bytes : FrameHeader → List ℕ
to_bytes h = to_le_bytes 8 h.length_field ++ (to_le_bytes 4 h.checksum ++ replicate 4 0)

unfoldable pub from_bytes : List ℕ → FrameHeader
from_bytes bytes = record {
  length_field = from_le_bytes (take 8 bytes);
  checksum = from_le_bytes (take 4 (drop 8 bytes));
}

pub length-to_bytes : (h : FrameHeader) → length (to_bytes h) ≡ frame_size
unfolding to_bytes
length-to_bytes h = omega (
  arith,
  length-append (to_le_bytes 8 h.length_field) (to_le_bytes 4 h.checksum ++ replicate 4 0),
  length-append (to_le_bytes 4 h.checksum) (replicate 4 0),
  length-to_le_bytes 8 h.length_field,
  length-to_le_bytes 4 h.checksum,
)

-- A header whose fields fit their machine integers is read back from its 16 bytes.
pub from_bytes-to_bytes :
    (h : FrameHeader) → h.length_field < 2 ^ 64 → h.checksum < 2 ^ 32 → from_bytes (to_bytes h) ≡ h
unfolding from_bytes to_bytes
from_bytes-to_bytes h long small =
    let front = to_le_bytes 8 h.length_field in
    let back = to_le_bytes 4 h.checksum in
    rw (
      take-append front (back ++ replicate 4 0) 8 (length-to_le_bytes 8 h.length_field),
      drop-append front (back ++ replicate 4 0) 8 (length-to_le_bytes 8 h.length_field),
      take-append back (replicate 4 0) 4 (length-to_le_bytes 4 h.checksum),
      from_le_bytes-to_le_bytes 8 h.length_field long,
      from_le_bytes-to_le_bytes 4 h.checksum small,
    )
