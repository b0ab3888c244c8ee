-- ===== src/Proxy/Protocol/Tests.antt =====
-- proxy/protocol.rs at small packets.
use wolf_scale.Base.{◌+◌, ◌≡◌, [], ◌∷◌, ◌++◌, arith}
use wolf_scale.Error.{ok}
use wolf_scale.Proxy.Protocol.{new, read, write}
use wolf_scale.Proxy.Protocol.RoundTrip.{read-write_packet}

read-write_packet_example :
    read (write (new 3 (14 ∷ 1 ∷ [])) [] ++ (9 ∷ [])) ≡ ok (new 3 (14 ∷ 1 ∷ []), 4 + 2)
read-write_packet_example = read-write_packet 3 (14 ∷ 1 ∷ []) (9 ∷ []) (omega arith)
