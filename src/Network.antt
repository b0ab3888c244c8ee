-- ===== src/Network.antt =====
-- network/mod.rs and network/server.rs: framed messages on a connection. A connection is the bytes
-- that the other end sends before it closes. `bincode` and `crc32fast` are parameters.
pub mod Streams
mod Tests
use wolf_scale.Base.{
  ℕ, zero, suc, ◌*◌, String, Bool, Option, none, some, List, [], ◌∷◌, ◌++◌, ltb, ◌==◌, not,
  if◌then◌else◌, length, take, drop,
}
use wolf_scale.Error.{Error, Result, ok, err, io, network, wal_serialization}
use wolf_scale.Replication.Protocol.{Message}
use wolf_scale.Replication.Protocol.Frame.{FrameHeader, frame_size, new, to_bytes, from_bytes}

-- `Message::serialize`, `Message::deserialize` and `crc32fast::hash`
pub record Codec : Type 0 where
  pub serialize : Message → Option (List ℕ)
  pub deserialize : List ℕ → Option Message
  pub crc32 : List ℕ → ℕ

abbrev pub max_message_size : ℕ
max_message_size = 1024 * 1024 * 1024

abbrev pub decoded : List ℕ → Option Message → Result (Message × List ℕ)
decoded rest none = err wal_serialization
decoded rest (some m) = ok (m, rest)

unfoldable pub read_body : Codec → FrameHeader → List ℕ → Result (Message × List ℕ)
read_body c header bytes =
    if ltb max_message_size header.length_field
    then err (network "Message too large")
    else if ltb (length bytes) header.length_field
    then err io
    else if not (c.crc32 (take header.length_field bytes) == header.checksum)
    then err (network "Message checksum mismatch")
    else decoded (drop header.length_field bytes) (c.deserialize (take header.length_field bytes))

-- `read_message`: the message, and the bytes that are left to read
unfoldable pub read_message : Codec → List ℕ → Result (Message × List ℕ)
read_message c bytes =
    if ltb (length bytes) frame_size
    then err io
    else read_body c (from_bytes (take frame_size bytes)) (drop frame_size bytes)

abbrev pub framed : Codec → List ℕ → Option (List ℕ) → Result (List ℕ)
framed c out none = err wal_serialization
framed c out (some body) = ok (out ++ (to_bytes (new c.crc32 body) ++ body))

-- `write_message`, behind the bytes written so far; the connection takes every write
unfoldable pub write_message : Codec → Message → List ℕ → Result (List ℕ)
write_message c m out = framed c out (c.serialize m)

-- What `handle_connection` has done: the bytes written back, and what went into the channel.
pub record Connection : Type 0 where
  pub written : List ℕ
  pub heard : List (String × Message)

abbrev pub Handler : Type 0
Handler = String → Message → Option Message

abbrev pub respond : Codec → Option Message → List ℕ → Result (List ℕ)
respond c none out = ok out
respond c (some response) out = write_message c response out

abbrev pub answer : Codec → Option Handler → String → Message → List ℕ → Result (List ℕ)
answer c none addr m out = ok out
answer c (some handler) addr m out = respond c (handler addr m) out

-- The channel takes a message as long as its receiver `is_open` after those before it.
abbrev pub forward :
    (ℕ → Bool)
    → (Connection → Result (Unit {0}) × Connection)
    → String × Message
    → Connection
    → Result (List ℕ)
    → Result (Unit {0}) × Connection
forward is_open resume m s (err e) = (err e, s)
forward is_open resume m s (ok out) =
    if is_open (length s.heard)
    then resume (record { written = out; heard = s.heard ++ (m ∷ []) })
    else (ok tt, record { written = out; heard = s.heard })

abbrev pub on_read :
    Codec
    → Option Handler
    → String
    → (ℕ → Bool)
    → (List ℕ → Connection → Result (Unit {0}) × Connection)
    → Connection
    → Result (Message × List ℕ)
    → Result (Unit {0}) × Connection
on_read c handler addr is_open resume s (err e) = (ok tt, s)
on_read c handler addr is_open resume s (ok (m, rest)) =
    forward is_open (resume rest) (addr, m) s (answer c handler addr m s.written)

-- `handle_connection`: every turn but the last reads a frame, so that the bytes are fuel enough.
unfoldable pub handle_connection :
    Codec
    → Option Handler
    → String
    → (ℕ → Bool)
    → ℕ
    → List ℕ
    → Connection
    → Result (Unit {0}) × Connection
handle_connection c handler addr is_open zero input s = (ok tt, s)
handle_connection c handler addr is_open (suc fuel) input s =
    on_read c handler addr is_open (handle_connection c handler addr is_open fuel) s
      (read_message c input)
