-- ===== src/Wolfnet/Peers/Tests.antt =====
-- wolfnet/src/peer.rs, run with a library of a few texts.
use wolf_scale.Base.{
  ℕ, ◌≡◌, refl, String, true, false, none, some, List, [], ◌∷◌, get, str_eq, replicate,
  if◌then◌else◌, ap,
}
use wolf_scale.Base
use wolf_scale.Wolfnet.Cipher.{Aead}
use wolf_scale.Wolfnet.Peers.{
  Library, KeyPair, Peer, PeerManager, PexEntry, new, add_peer, find_relay_for, find_ip_by_endpoint,
  is_connected,
}
use wolf_scale.Wolfnet.Peers
use wolf_scale.Wolfnet.Peers.Learning.{new_peer, add_from_pex, update_from_discovery}
use wolf_scale.Wolfnet.Peers.Kept.{
  IsReached, add_from_pex-keeps_direct, update_from_discovery-IsReached,
}

abbrev plain : Aead
plain = record { encrypt = λ nonce text. some text; decrypt = λ nonce sealed. some sealed }

abbrev lib : Library
lib = record {
  sha256 = λ bs. bs;
  diffie_hellman = λ secret public. plain;
  decode_base64 = λ t. some (replicate 32 (if str_eq t "K1" then 1 else 2));
  parse_ip = λ t. some (if str_eq t "10.0.0.1" then 1 else if str_eq t "10.0.0.2" then 2 else 3);
  parse_endpoint = λ t. some 80;
  encode_key = λ k. "K";
  ip_text = λ ip. "ip";
  endpoint_text = λ e. "endpoint";
}

abbrev keys : KeyPair
keys = record { secret = 9 ∷ []; public = 8 ∷ [] }

-- A configured peer under address 1
abbrev peer : Peer
peer = new_peer lib (replicate 32 1) 1

abbrev manager : PeerManager
manager = add_peer peer new

abbrev entries : List PexEntry
entries =
    record {
      public_key = "K2";
      wolfnet_ip = "10.0.0.1";
      endpoint = none;
      hostname = "x";
      is_gateway = false;
    }
    ∷ record {
      public_key = "K2";
      wolfnet_ip = "10.0.0.2";
      endpoint = some "e";
      hostname = "b";
      is_gateway = true;
    }
    ∷ []

add_from_pex-keeps_direct_example :
    get 1 (add_from_pex lib 5000 entries 1 7 keys manager).peers_by_ip ≡ some peer
unfolding add_peer get Base.put is_connected
add_from_pex-keeps_direct_example =
    add_from_pex-keeps_direct lib 5000 entries 1 7 keys manager 1 peer refl refl

update_from_discovery-IsReached_example :
    IsReached (1 ∷ []) 90 4 (update_from_discovery lib (1 ∷ []) 90 4 "h" true manager)
update_from_discovery-IsReached_example =
    update_from_discovery-IsReached lib (1 ∷ []) 90 4 "h" true manager

-- What is learned by exchange is relayed by the sender.
relay_test : find_relay_for 5000 2 (add_from_pex lib 5000 entries 1 7 keys manager) ≡ some 1
unfolding add_peer get Base.put is_connected find_relay_for add_from_pex Peers.find_peer
    Base.from_le_bytes
relay_test = refl
