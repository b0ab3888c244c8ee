-- ===== src/Network/Tests.antt =====
-- Connections of network/server.rs, run.
use mathlib.Core.Path.{subst}
use wolf_scale.Base.{
  ℕ, suc, ◌+◌, ◌≡◌, refl, Bool, true, false, Option, none, some, List, [], ◌∷◌, ◌++◌, arith, ◌==◌,
  if◌then◌else◌, length, map, from_le_bytes,
}
use wolf_scale.Error.{ok, err, io, network}
use wolf_scale.Replication.Protocol.{Message, status_request, full_sync_complete}
use wolf_scale.Replication.Protocol.Frame.{from_bytes}
use wolf_scale.Network.{Codec, Connection, Handler, read_message, handle_connection}
use wolf_scale.Network.Streams.{IsSendable, write_all, responses, handle_connection-write_all}

abbrev sum : List ℕ → ℕ
sum [] = 1
sum (b ∷ bs) = b + sum bs

abbrev bytes_of : Message → Option (List ℕ)
bytes_of status_request = some (7 ∷ 1 ∷ [])
bytes_of (full_sync_complete n) = some (8 ∷ [])
bytes_of _ = none

abbrev message_of : List ℕ → Option Message
message_of [] = none
message_of (b ∷ bs) = if b == 7 then some status_request else some (full_sync_complete 5)

abbrev codec : Codec
codec = record { serialize = bytes_of; deserialize = message_of; crc32 = sum }

abbrev is_status : Message → Bool
is_status status_request = true
is_status _ = false

abbrev handler : Handler
handler addr m = if is_status m then some (full_sync_complete 5) else none

done-IsSendable : IsSendable codec (full_sync_complete 5)
unfolding IsSendable
done-IsSendable = (8 ∷ [], refl, refl, omega arith, omega arith)

status-IsSendable : IsSendable codec status_request
unfolding IsSendable
status-IsSendable = (7 ∷ 1 ∷ [], refl, refl, omega arith, omega arith)

answers :
    (b : Bool) (r : Message)
    → (if b then some (full_sync_complete 5) else none) ≡ some r
    → IsSendable codec r
answers true r e = subst (IsSendable codec) (cc e) done-IsSendable
answers false r e = cc e

abbrev both : List Message
both = status_request ∷ full_sync_complete 5 ∷ []

handle_connection-write_all_example :
    (fs : List ℕ) × (rs : List ℕ) × (write_all codec both [] ≡ ok fs)
    × (write_all codec (responses (handler "a") both) [] ≡ ok rs)
    × (handle_connection codec
          (some handler)
          "a"
          (λ _. true)
          (suc (length fs))
          fs
          (record { written = []; heard = [] })
        ≡ (ok tt, record { written = rs; heard = map (λ m. ("a", m)) both }))
handle_connection-write_all_example =
    handle_connection-write_all codec handler "a" both (λ m r. answers (is_status m) r)
      (status-IsSendable, (done-IsSendable, tt))

-- A frame cut short, and one with another checksum.
abbrev frame : ℕ → List ℕ
frame crc = 1 ∷ 0 ∷ 0 ∷ 0 ∷ 0 ∷ 0 ∷ 0 ∷ 0 ∷ crc ∷ 0 ∷ 0 ∷ 0 ∷ 0 ∷ 0 ∷ 0 ∷ 0 ∷ []

reads_frame : read_message codec (frame 9 ++ (8 ∷ 3 ∷ [])) ≡ ok (full_sync_complete 5, 3 ∷ [])
unfolding read_message wolf_scale.Network.read_body from_bytes from_le_bytes
reads_frame = refl

cut_short : read_message codec (frame 9) ≡ err io
unfolding read_message wolf_scale.Network.read_body from_bytes from_le_bytes
cut_short = refl

damaged : read_message codec (frame 6 ++ (8 ∷ [])) ≡ err (network "Message checksum mismatch")
unfolding read_message wolf_scale.Network.read_body from_bytes from_le_bytes
damaged = refl
