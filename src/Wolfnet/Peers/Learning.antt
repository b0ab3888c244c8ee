-- ===== src/Wolfnet/Peers/Learning.antt =====
-- wolfnet/src/peer.rs: what a node learns of peers by discovery and by peer exchange, and its status.
use wolf_scale.Base.{
  ℕ, ◌-◌, ◌/◌, String, Bool, false, not, ◌||◌, Option, none, some, List, [], ◌∷◌, ◌==◌,
  if◌then◌else◌, length, take, get, put, take_out, from_le_bytes, map, keep,
}
use wolf_scale.Wolfnet.Cipher
use wolf_scale.Wolfnet.Peers.{
  Library, KeyPair, Peer, PeerManager, PexEntry, PeerStatus, is_some, is_connected, same_key,
  add_peer, without_old, find_peer, discovered, without_endpoint,
}

module _ (lib : Library) where
  abbrev pub peer_id : List ℕ → ℕ
  peer_id public_key = from_le_bytes (take 4 (lib.sha256 public_key))

  abbrev pub key_of : Option (List ℕ) → Option (List ℕ)
  key_of none = none
  key_of (some bs) = if length bs == 32 then some bs else none

  abbrev pub parse_public_key : String → Option (List ℕ)
  parse_public_key text = key_of (lib.decode_base64 text)

  abbrev pub new_peer : List ℕ → ℕ → Peer
  new_peer public_key ip = record {
    public_key = public_key;
    peer_id = peer_id public_key;
    wolfnet_ip = ip;
    endpoint = none;
    hostname = "";
    cipher = none;
    is_gateway = false;
    last_seen = none;
    rx_bytes = 0;
    tx_bytes = 0;
    last_handshake = none;
    relay_via = none;
    configured_endpoint = none;
  }

  abbrev pub establish_session : ℕ → KeyPair → Peer → Peer
  establish_session now keys p = record p {
    cipher =
        some (Cipher.new (lib.diffie_hellman keys.secret p.public_key) keys.public p.public_key);
    last_handshake = some now;
  }

  abbrev pub enter : Peer → ℕ → ℕ → List (ℕ × ℕ) → List (ℕ × Peer) → PeerManager → PeerManager
  enter p ip endpoint endpoints peers m = record m {
    endpoint_to_ip = put endpoint ip endpoints;
    id_to_ip = put p.peer_id ip m.id_to_ip;
    peers_by_ip = put ip p peers;
  }

  -- A peer whose address has changed moves to the new one.
  abbrev pub migrate_or_add :
      List ℕ → ℕ → ℕ → String → Bool → PeerManager → Option (ℕ × Peer) → PeerManager
  migrate_or_add key endpoint ip hostname is_gateway m none =
      enter (discovered ip endpoint hostname is_gateway (new_peer key ip)) ip endpoint
        m.endpoint_to_ip m.peers_by_ip m
  migrate_or_add key endpoint ip hostname is_gateway m (some (old_ip, p)) =
      if not (old_ip == ip)
      then enter (discovered ip endpoint hostname is_gateway p) ip endpoint
          (without_endpoint p.endpoint m.endpoint_to_ip) (take_out old_ip m.peers_by_ip) m
      else enter (discovered ip endpoint hostname is_gateway (new_peer key ip)) ip endpoint
          m.endpoint_to_ip m.peers_by_ip m

  abbrev pub update_known : List ℕ → ℕ → ℕ → String → Bool → PeerManager → Option Peer → PeerManager
  update_known key endpoint ip hostname is_gateway m none =
      migrate_or_add key endpoint ip hostname is_gateway m
        (find_peer (λ (q : Peer). same_key q.public_key key) m.peers_by_ip)
  update_known key endpoint ip hostname is_gateway m (some p) =
      if same_key p.public_key key
      then record m {
        peers_by_ip =
            put ip
              (record (discovered ip endpoint hostname is_gateway p) { wolfnet_ip = p.wolfnet_ip })
              m.peers_by_ip;
        endpoint_to_ip = put endpoint ip (without_old p.endpoint endpoint m.endpoint_to_ip);
      }
      else migrate_or_add key endpoint ip hostname is_gateway m
          (find_peer (λ (q : Peer). same_key q.public_key key) m.peers_by_ip)

  unfoldable pub update_from_discovery : List ℕ → ℕ → ℕ → String → Bool → PeerManager → PeerManager
  update_from_discovery key endpoint ip hostname is_gateway m =
      update_known key endpoint ip hostname is_gateway m (get ip m.peers_by_ip)

  abbrev pub pex_entry : Peer → PexEntry
  pex_entry p = record {
    public_key = lib.encode_key p.public_key;
    wolfnet_ip = lib.ip_text p.wolfnet_ip;
    endpoint = elim p.endpoint [ none ↦ none | some e ↦ some (lib.endpoint_text e) ];
    hostname = p.hostname;
    is_gateway = p.is_gateway;
  }

  unfoldable pub get_pex_entries : ℕ → PeerManager → List PexEntry
  get_pex_entries my_ip m =
      map pex_entry
        (keep (λ (p : Peer). not (p.wolfnet_ip == my_ip)) (map (λ e. e.1) m.peers_by_ip))

  -- A peer that is connected, or that is not reached through another, is left as it is.
  abbrev pub is_direct : ℕ → Peer → Bool
  is_direct now p = is_connected now p || not (is_some p.relay_via)

  abbrev pub parsed_endpoint : Option String → Option ℕ
  parsed_endpoint none = none
  parsed_endpoint (some text) = lib.parse_endpoint text

  abbrev pub is_elsewhere : ℕ → Option (ℕ × Peer) → Bool
  is_elsewhere ip none = false
  is_elsewhere ip (some (existing_ip, p)) = not (existing_ip == ip)

  abbrev pub relayed : ℕ → ℕ → ℕ → Peer → PeerManager → PeerManager
  relayed now ip sender_ip p m =
      if not (is_connected now p)
      then record m { peers_by_ip = put ip (record p { relay_via = some sender_ip }) m.peers_by_ip }
      else m

  abbrev pub learned : ℕ → PexEntry → List ℕ → ℕ → ℕ → KeyPair → PeerManager → PeerManager
  learned now entry key ip sender_ip keys m =
      let endpoint = parsed_endpoint entry.endpoint in
      let p = establish_session now keys (record (new_peer key ip) {
        hostname = entry.hostname;
        is_gateway = entry.is_gateway;
        relay_via = some sender_ip;
        endpoint = endpoint;
      }) in
      add_peer p m

  abbrev pub relay_or_learn :
      ℕ → PexEntry → List ℕ → ℕ → ℕ → KeyPair → PeerManager → Option Peer → PeerManager
  relay_or_learn now entry key ip sender_ip keys m none = learned now entry key ip sender_ip keys m
  relay_or_learn now entry key ip sender_ip keys m (some p) = relayed now ip sender_ip p m

  abbrev pub with_key : ℕ → PexEntry → ℕ → ℕ → KeyPair → PeerManager → Option (List ℕ) → PeerManager
  with_key now entry ip sender_ip keys m none = m
  with_key now entry ip sender_ip keys m (some key) =
      if is_elsewhere ip (find_peer (λ (q : Peer). same_key q.public_key key) m.peers_by_ip)
      then m
      else relay_or_learn now entry key ip sender_ip keys m (get ip m.peers_by_ip)

  abbrev pub unless_direct :
      ℕ → PexEntry → ℕ → ℕ → KeyPair → PeerManager → Option Peer → PeerManager
  unless_direct now entry ip sender_ip keys m none =
      with_key now entry ip sender_ip keys m (parse_public_key entry.public_key)
  unless_direct now entry ip sender_ip keys m (some p) =
      if is_direct now p
      then m
      else with_key now entry ip sender_ip keys m (parse_public_key entry.public_key)

  abbrev pub with_ip : ℕ → PexEntry → ℕ → ℕ → KeyPair → PeerManager → Option ℕ → PeerManager
  with_ip now entry sender_ip my_ip keys m none = m
  with_ip now entry sender_ip my_ip keys m (some ip) =
      if ip == my_ip then m else unless_direct now entry ip sender_ip keys m (get ip m.peers_by_ip)

  unfoldable pub add_from_pex : ℕ → List PexEntry → ℕ → ℕ → KeyPair → PeerManager → PeerManager
  add_from_pex now [] sender_ip my_ip keys m = m
  add_from_pex now (e ∷ es) sender_ip my_ip keys m =
      add_from_pex now es sender_ip my_ip keys
        (with_ip now e sender_ip my_ip keys m (lib.parse_ip e.wolfnet_ip))

  abbrev pub seconds_since : ℕ → Option ℕ → ℕ
  seconds_since now none = 18446744073709551615
  seconds_since now (some t) = (now - t) / 1000

  abbrev pub peer_status : ℕ → Peer → PeerStatus
  peer_status now p = record {
    hostname = p.hostname;
    address = lib.ip_text p.wolfnet_ip;
    endpoint = elim p.endpoint [ none ↦ "-" | some e ↦ lib.endpoint_text e ];
    public_key = lib.encode_key p.public_key;
    last_seen_secs = seconds_since now p.last_seen;
    rx_bytes = p.rx_bytes;
    tx_bytes = p.tx_bytes;
    connected = is_connected now p;
    is_gateway = p.is_gateway;
    relay_via = elim p.relay_via [ none ↦ none | some ip ↦ some (lib.ip_text ip) ];
  }

  unfoldable pub status : ℕ → PeerManager → List PeerStatus
  status now m = map (λ e. peer_status now e.1) m.peers_by_ip
