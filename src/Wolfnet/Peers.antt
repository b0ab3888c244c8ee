-- ===== src/Wolfnet/Peers.antt =====
-- wolfnet/src/peer.rs: the peers of a node of the private network, and what it learns of them. An
-- address is a number, a public key its bytes. What other crates do (hashing, key exchange, texts of
-- keys and addresses) is `Library`. Times are milliseconds, and the clock's value is an argument.
pub mod Learning
pub mod Kept
mod Tests
use wolf_scale.Base.{
  ℕ, ◌+◌, ◌-◌, ◌/◌, String, Bool, true, false, not, ◌&&◌, ◌||◌, Option, none, some, List, [], ◌∷◌,
  ltb, ◌==◌, if◌then◌else◌, length, take, get, put, take_out, u64, from_le_bytes, map, keep,
}
use wolf_scale.Wolfnet.Cipher.{Aead, SessionCipher, Outcome, done, failed, CipherError}
use wolf_scale.Wolfnet.Cipher

pub record Library : Type 0 where
  pub sha256 : List ℕ → List ℕ
  -- The AEAD under the shared secret of a secret key and a public key
  pub diffie_hellman : List ℕ → List ℕ → Aead
  -- After `trim`
  pub decode_base64 : String → Option (List ℕ)
  pub parse_ip : String → Option ℕ
  pub parse_endpoint : String → Option ℕ
  pub encode_key : List ℕ → String
  pub ip_text : ℕ → String
  pub endpoint_text : ℕ → String

pub record KeyPair : Type 0 where
  pub secret : List ℕ
  pub public : List ℕ

pub record Peer : Type 0 where
  pub public_key : List ℕ
  pub peer_id : ℕ
  pub wolfnet_ip : ℕ
  pub endpoint : Option ℕ
  pub hostname : String
  pub cipher : Option SessionCipher
  pub is_gateway : Bool
  pub last_seen : Option ℕ
  pub rx_bytes : ℕ
  pub tx_bytes : ℕ
  pub last_handshake : Option ℕ
  pub relay_via : Option ℕ
  pub configured_endpoint : Option String

pub record PeerManager : Type 0 where
  pub peers_by_ip : List (ℕ × Peer)
  pub id_to_ip : List (ℕ × ℕ)
  pub endpoint_to_ip : List (ℕ × ℕ)
  pub subnet_routes : List (ℕ × ℕ)

pub record PexEntry : Type 0 where
  pub public_key : String
  pub wolfnet_ip : String
  pub endpoint : Option String
  pub hostname : String
  pub is_gateway : Bool

pub record PeerStatus : Type 0 where
  pub hostname : String
  pub address : String
  pub endpoint : String
  pub public_key : String
  pub last_seen_secs : ℕ
  pub rx_bytes : ℕ
  pub tx_bytes : ℕ
  pub connected : Bool
  pub is_gateway : Bool
  pub relay_via : Option String

abbrev pub new : PeerManager
new = record { peers_by_ip = []; id_to_ip = []; endpoint_to_ip = []; subnet_routes = [] }

abbrev pub is_recent : ℕ → Option ℕ → Bool
is_recent now none = false
is_recent now (some t) = ltb ((now - t) / 1000) 120

abbrev pub is_some : {A : Type 0} → Option A → Bool
is_some none = false
is_some (some a) = true

unfoldable pub is_connected : ℕ → Peer → Bool
is_connected now p = is_some p.cipher && is_recent now p.last_seen

abbrev pub same_key : List ℕ → List ℕ → Bool
same_key [] [] = true
same_key [] (b ∷ bs) = false
same_key (a ∷ as') [] = false
same_key (a ∷ as') (b ∷ bs) = (a == b) && same_key as' bs

abbrev pub encrypt_with :
    List ℕ → Peer → Option SessionCipher → Option (Outcome (ℕ × List ℕ)) × Peer
encrypt_with content p none = (none, p)
encrypt_with content p (some c) =
    let (r, c') = Cipher.encrypt content c in
    let p' = record p { cipher = some c' } in
    elim r [
      | failed e ↦ (some (failed e), p')
      | done sealed ↦
          (some (done sealed), record p' { tx_bytes = u64 (p.tx_bytes + length content) })
    ]

-- None is the error that there is no session.
unfoldable pub encrypt : List ℕ → Peer → Option (Outcome (ℕ × List ℕ)) × Peer
encrypt content p = encrypt_with content p p.cipher

abbrev pub decrypt_with :
    ℕ → ℕ → List ℕ → Peer → Option SessionCipher → Option (Outcome (List ℕ)) × Peer
decrypt_with now counter content p none = (none, p)
decrypt_with now counter content p (some c) =
    let (r, c') = Cipher.decrypt counter content c in
    let p' = record p { cipher = some c' } in
    elim r [
      | failed e ↦ (some (failed e), p')
      | done text ↦ (
        some (done text),
        record p' { rx_bytes = u64 (p.rx_bytes + length text); last_seen = some now },
      )
    ]

unfoldable pub decrypt : ℕ → ℕ → List ℕ → Peer → Option (Outcome (List ℕ)) × Peer
decrypt now counter content p = decrypt_with now counter content p p.cipher

abbrev pub with_endpoint : Option ℕ → ℕ → List (ℕ × ℕ) → List (ℕ × ℕ)
with_endpoint none ip m = m
with_endpoint (some endpoint) ip m = put endpoint ip m

unfoldable pub add_peer : Peer → PeerManager → PeerManager
add_peer p m = record m {
  endpoint_to_ip = with_endpoint p.endpoint p.wolfnet_ip m.endpoint_to_ip;
  id_to_ip = put p.peer_id p.wolfnet_ip m.id_to_ip;
  peers_by_ip = put p.wolfnet_ip p m.peers_by_ip;
}

abbrev pub find_ip_by_endpoint : ℕ → PeerManager → Option ℕ
find_ip_by_endpoint endpoint m = get endpoint m.endpoint_to_ip

abbrev pub find_ip_by_id : ℕ → PeerManager → Option ℕ
find_ip_by_id id m = get id m.id_to_ip

-- The old endpoint goes where it is another one.
abbrev pub without_old : Option ℕ → ℕ → List (ℕ × ℕ) → List (ℕ × ℕ)
without_old none endpoint m = m
without_old (some old) endpoint m = if old == endpoint then m else take_out old m

abbrev pub move_endpoint : ℕ → ℕ → PeerManager → Option Peer → PeerManager
move_endpoint ip endpoint m none = m
move_endpoint ip endpoint m (some p) = record m {
  peers_by_ip = put ip (record p { endpoint = some endpoint }) m.peers_by_ip;
  endpoint_to_ip = put endpoint ip (without_old p.endpoint endpoint m.endpoint_to_ip);
}

unfoldable pub update_endpoint : ℕ → ℕ → PeerManager → PeerManager
update_endpoint ip endpoint m = move_endpoint ip endpoint m (get ip m.peers_by_ip)

-- The first peer that a test holds of, with the address it is under
unfoldable pub find_peer : (Peer → Bool) → List (ℕ × Peer) → Option (ℕ × Peer)
find_peer test [] = none
find_peer test ((ip, p) ∷ rest) = if test p then some (ip, p) else find_peer test rest

abbrev pub all_ips : PeerManager → List ℕ
all_ips m = map (λ e. e.0) m.peers_by_ip

abbrev pub ip_of : Option (ℕ × Peer) → Option ℕ
ip_of none = none
ip_of (some (ip, p)) = some ip

unfoldable pub find_gateway : ℕ → PeerManager → Option ℕ
find_gateway now m =
    ip_of (find_peer (λ (p : Peer). p.is_gateway && is_connected now p) m.peers_by_ip)

abbrev pub relay_of : ℕ → Option Peer → Option ℕ
relay_of now none = none
relay_of now (some p) = if not (is_connected now p) then p.relay_via else none

unfoldable pub find_relay_for : ℕ → ℕ → PeerManager → Option ℕ
find_relay_for now dest_ip m = relay_of now (get dest_ip m.peers_by_ip)

abbrev pub find_route : ℕ → PeerManager → Option ℕ
find_route dest_ip m = get dest_ip m.subnet_routes

abbrev pub count : PeerManager → ℕ
count m = length m.peers_by_ip

-- What discovery tells of a peer
abbrev pub discovered : ℕ → ℕ → String → Bool → Peer → Peer
discovered ip endpoint hostname is_gateway p = record p {
  wolfnet_ip = ip;
  endpoint = some endpoint;
  hostname = hostname;
  is_gateway = is_gateway;
  relay_via = none;
}

abbrev pub without_endpoint : Option ℕ → List (ℕ × ℕ) → List (ℕ × ℕ)
without_endpoint none m = m
without_endpoint (some old) m = take_out old m
