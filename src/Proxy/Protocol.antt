-- ===== src/Proxy/Protocol.antt =====
-- proxy/protocol.rs: the packets of the MySQL wire protocol. A text is its bytes; what the standard
-- library does with them is a parameter, `Texts`. An `io::Error` is the error `io`.
pub mod RoundTrip
mod Tests
use wolf_scale.Base.{
  ℕ, zero, suc, ◌+◌, ◌%◌, ◌/◌, ◌^◌, Bool, true, false, ◌||◌, Option, none, some, List, [], ◌∷◌,
  ◌++◌, ltb, ◌==◌, if◌then◌else◌, length, take, drop, u32, to_le_bytes, from_le_bytes, replicate,
}
use wolf_scale.Error.{Result, ok, err, io}

-- `String::from_utf8` on a valid text, `trim` and `to_uppercase`
pub record Texts : Type 0 where
  pub is_utf8 : List ℕ → Bool
  pub trim : List ℕ → List ℕ
  pub to_uppercase : List ℕ → List ℕ

pub data PacketType : Type 0 where
  quit query ping handshake handshake_response ok_packet error_packet eof : PacketType
  unknown : ℕ → PacketType

-- `PacketType::from`
unfoldable pub packet_type : ℕ → PacketType
packet_type cmd =
    if cmd == 1 then quit else if cmd == 3 then query else if cmd == 14 then ping else unknown cmd

pub record PacketHeader : Type 0 where
  pub length : ℕ
  pub sequence_id : ℕ

pub record MySqlPacket : Type 0 where
  pub header : PacketHeader
  pub payload : List ℕ

abbrev byte_at : ℕ → List ℕ → ℕ
byte_at n [] = 0
byte_at zero (b ∷ bs) = b
byte_at (suc n) (b ∷ bs) = byte_at n bs

-- `PacketHeader::read`
unfoldable pub read_header : List ℕ → Result PacketHeader
read_header bytes =
    if ltb (length bytes) 4
    then err io
    else ok (record { length = from_le_bytes (take 3 bytes); sequence_id = byte_at 3 bytes })

-- `PacketHeader::write`
unfoldable pub write_header : PacketHeader → List ℕ → List ℕ
write_header h buf = buf ++ (to_le_bytes 3 h.length ++ (h.sequence_id ∷ []))

unfoldable pub new : ℕ → List ℕ → MySqlPacket
new sequence_id payload = record {
  header = record { length = u32 (length payload); sequence_id = sequence_id };
  payload = payload;
}

abbrev pub body_of : List ℕ → Result PacketHeader → Result (MySqlPacket × ℕ)
body_of bytes (err x) = err x
body_of bytes (ok h) =
    let total_len = 4 + h.length in
    if ltb (length bytes) total_len
    then err io
    else ok (record { header = h; payload = take h.length (drop 4 bytes) }, total_len)

unfoldable pub read : List ℕ → Result (MySqlPacket × ℕ)
read bytes = body_of bytes (read_header bytes)

unfoldable pub write : MySqlPacket → List ℕ → List ℕ
write p buf = write_header p.header buf ++ p.payload

unfoldable pub command : MySqlPacket → Option PacketType
command p = elim p.payload [ [] ↦ none | b ∷ _ ↦ some (packet_type b) ]

-- "USE `", before the name of the database and a closing quote
abbrev pub use_quote : List ℕ
use_quote = 85 ∷ 83 ∷ 69 ∷ 32 ∷ 96 ∷ []

module _ (t : Texts) where
  unfoldable pub query_of : List ℕ → Option (List ℕ)
  query_of [] = none
  query_of (_ ∷ []) = none
  query_of (b ∷ c ∷ rest) =
      let text = c ∷ rest in
      if b == 3
      then if t.is_utf8 text then some text else none
      else if b == 2
      then if t.is_utf8 text then some (use_quote ++ (text ++ (96 ∷ []))) else none
      else none

  unfoldable pub query_string : MySqlPacket → Option (List ℕ)
  query_string p = query_of p.payload

unfoldable pub starts_with : List ℕ → List ℕ → Bool
starts_with [] text = true
starts_with (b ∷ bs) [] = false
starts_with (b ∷ bs) (c ∷ text) = if b == c then starts_with bs text else false

-- INSERT, UPDATE, DELETE, CREATE, ALTER, DROP, TRUNCATE and REPLACE
abbrev pub write_words : List (List ℕ)
write_words =
    (73 ∷ 78 ∷ 83 ∷ 69 ∷ 82 ∷ 84 ∷ [])
    ∷ (85 ∷ 80 ∷ 68 ∷ 65 ∷ 84 ∷ 69 ∷ [])
    ∷ (68 ∷ 69 ∷ 76 ∷ 69 ∷ 84 ∷ 69 ∷ [])
    ∷ (67 ∷ 82 ∷ 69 ∷ 65 ∷ 84 ∷ 69 ∷ [])
    ∷ (65 ∷ 76 ∷ 84 ∷ 69 ∷ 82 ∷ [])
    ∷ (68 ∷ 82 ∷ 79 ∷ 80 ∷ [])
    ∷ (84 ∷ 82 ∷ 85 ∷ 78 ∷ 67 ∷ 65 ∷ 84 ∷ 69 ∷ [])
    ∷ (82 ∷ 69 ∷ 80 ∷ 76 ∷ 65 ∷ 67 ∷ 69 ∷ [])
    ∷ []

abbrev pub starts_with_any : List (List ℕ) → List ℕ → Bool
starts_with_any [] text = false
starts_with_any (word ∷ words) text = starts_with word text || starts_with_any words text

unfoldable pub is_write_query : Texts → MySqlPacket → Bool
is_write_query t p = elim (query_string t p) [
  | some q ↦ starts_with_any write_words (t.to_uppercase (t.trim q))
  | none ↦ false
]

unfoldable pub write_lenenc_int : List ℕ → ℕ → List ℕ
write_lenenc_int buf value =
    if ltb value 251
    then buf ++ (value ∷ [])
    else if ltb value 65536
    then buf ++ (252 ∷ to_le_bytes 2 value)
    else if ltb value 16777216
    then buf ++ (253 ∷ to_le_bytes 3 value)
    else buf ++ (254 ∷ to_le_bytes 8 value)

unfoldable pub build_ok_packet : ℕ → ℕ → ℕ → MySqlPacket
build_ok_packet sequence_id affected_rows last_insert_id = new sequence_id (
    write_lenenc_int (write_lenenc_int (0 ∷ []) affected_rows) last_insert_id
    ++ (0 ∷ 0 ∷ 0 ∷ 0 ∷ []))

unfoldable pub build_error_packet : ℕ → ℕ → List ℕ → List ℕ → MySqlPacket
build_error_packet sequence_id error_code sql_state message =
    new sequence_id (255 ∷ (to_le_bytes 2 error_code ++ (35 ∷ (sql_state ++ message))))

abbrev pub scramble_part1 : List ℕ
scramble_part1 = 58 ∷ 35 ∷ 77 ∷ 88 ∷ 95 ∷ 42 ∷ 53 ∷ 72 ∷ []

abbrev pub scramble_part2 : List ℕ
scramble_part2 = 81 ∷ 34 ∷ 107 ∷ 124 ∷ 50 ∷ 73 ∷ 97 ∷ 94 ∷ 79 ∷ 40 ∷ 115 ∷ 45 ∷ []

-- "mysql_native_password" and a zero
abbrev pub plugin_name : List ℕ
plugin_name =
    109 ∷ 121 ∷ 115 ∷ 113 ∷ 108 ∷ 95 ∷ 110 ∷ 97 ∷ 116 ∷ 105 ∷ 118 ∷ 101 ∷ 95 ∷ 112 ∷ 97 ∷ 115 ∷ 115
    ∷ 119 ∷ 111 ∷ 114 ∷ 100 ∷ 0 ∷ []

-- The seconds of the clock are an argument.
unfoldable pub build_handshake_packet : ℕ → List ℕ → MySqlPacket
build_handshake_packet seconds server_version = new 0 (
    (10 ∷ server_version)
    ++ ((0 ∷ to_le_bytes 4 (u32 seconds))
        ++ (scramble_part1
            ++ ((0 ∷ 15 ∷ 130 ∷ 33 ∷ 2 ∷ 0 ∷ 8 ∷ 0 ∷ 21 ∷ replicate 10 0)
                ++ (scramble_part2 ++ (0 ∷ plugin_name))))))
