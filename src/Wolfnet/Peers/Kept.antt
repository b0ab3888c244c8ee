-- ===== src/Wolfnet/Peers/Kept.antt =====
-- What discovery and peer exchange of wolfnet/src/peer.rs do to the peers that are known.
use wolf_scale.Base.{
  ℕ, ◌≡◌, refl, ap, sym, ◌∙◌, String, Bool, true, false, not, Option, none, some, List, [], ◌∷◌,
  arith, ◌==◌, get, put, get-put, Bool-cases, inl, inr,
}
use wolf_scale.Wolfnet.Peers.{
  Library, KeyPair, Peer, PeerManager, PexEntry, is_connected, same_key, add_peer, find_peer,
  find_ip_by_endpoint,
}
use wolf_scale.Wolfnet.Peers.Learning.{
  is_direct, is_elsewhere, relay_or_learn, with_key, unless_direct, with_ip, add_from_pex,
  parse_public_key, migrate_or_add, update_known, update_from_discovery,
}

-- Putting something under another address
get-put_apart :
    (i j : ℕ) (q : Peer) (m : List (ℕ × Peer)) → (j == i) ≡ false → get i (put j q m) ≡ get i m
get-put_apart i j q m h = get-put j i q m ∙ simp h refl

addresses_differ :
    (j i : ℕ) (m : List (ℕ × Peer)) (o o' : Option Peer)
    → get j m ≡ o
    → get i m ≡ o'
    → (o ≡ o' → ⊥)
    → (j == i) ≡ false
addresses_differ j i m o o' h h' n = elim (Bool-cases (j == i)) [
  | inr e ↦ e
  | inl e ↦ let at : j ≡ i = ground (arith, e) in absurd (n (sym h ∙ ap (λ k. get k m) at ∙ h'))
]

-- The peer, if there is one, is direct.
direct_one : Library → ℕ → Option Peer → Bool
direct_one lib now none = false
direct_one lib now (some q) = is_direct lib now q

is_other_peer :
    (lib : Library) (now : ℕ) (q p : Peer)
    → is_direct lib now q ≡ false
    → is_direct lib now p ≡ true
    → some q ≡ some p
    → ⊥
unfolding direct_one
is_other_peer lib now q p other direct same =
    let e : is_direct lib now q ≡ is_direct lib now p = ap (direct_one lib now) same in
    cc (sym other ∙ e ∙ direct)

module _ (lib : Library) (now sender_ip my_ip : ℕ) (keys : KeyPair) (ip : ℕ) (p : Peer) where
  relay_or_learn-keeps :
      (e : PexEntry) (key : List ℕ) (j : ℕ) (m : PeerManager) (o : Option Peer)
      → (j == ip) ≡ false
      → get ip m.peers_by_ip ≡ some p
      → get ip (relay_or_learn lib now e key j sender_ip keys m o).peers_by_ip ≡ some p
  unfolding add_peer
  relay_or_learn-keeps e key j m none apart h = get-put_apart ip j _ m.peers_by_ip apart ∙ h
  relay_or_learn-keeps e key j m (some q) apart h = elim (Bool-cases (is_connected now q)) [
    | inl on ↦ simp on h
    | inr off ↦ simp off (get-put_apart ip j _ m.peers_by_ip apart ∙ h)
  ]

  with_key-keeps :
      (e : PexEntry) (j : ℕ) (m : PeerManager) (o : Option (List ℕ))
      → (j == ip) ≡ false
      → get ip m.peers_by_ip ≡ some p
      → get ip (with_key lib now e j sender_ip keys m o).peers_by_ip ≡ some p
  with_key-keeps e j m none apart h = h
  with_key-keeps e j m (some key) apart h =
      let other =
        is_elsewhere lib j (find_peer (λ (q : Peer). same_key q.public_key key) m.peers_by_ip) in
      elim (Bool-cases other) [
        | inl there ↦ simp there h
        | inr new ↦ simp new (relay_or_learn-keeps e key j m (get j m.peers_by_ip) apart h)
      ]

  unless_direct-keeps :
      (e : PexEntry) (j : ℕ) (m : PeerManager) (o : Option Peer)
      → is_direct lib now p ≡ true
      → get j m.peers_by_ip ≡ o
      → get ip m.peers_by_ip ≡ some p
      → get ip (unless_direct lib now e j sender_ip keys m o).peers_by_ip ≡ some p
  unless_direct-keeps e j m none direct k h =
      with_key-keeps e j m (parse_public_key lib e.public_key)
        (addresses_differ j ip m.peers_by_ip none (some p) k h (λ same. cc same)) h
  unless_direct-keeps e j m (some q) direct k h = elim (Bool-cases (is_direct lib now q)) [
    | inl there ↦ simp there h
    | inr other ↦ simp other (
        with_key-keeps e j m (parse_public_key lib e.public_key)
          (addresses_differ j ip m.peers_by_ip (some q) (some p) k h
            (λ same. is_other_peer lib now q p other direct same))
          h)
  ]

  with_ip-keeps :
      (e : PexEntry) (m : PeerManager) (o : Option ℕ)
      → is_direct lib now p ≡ true
      → get ip m.peers_by_ip ≡ some p
      → get ip (with_ip lib now e sender_ip my_ip keys m o).peers_by_ip ≡ some p
  with_ip-keeps e m none direct h = h
  with_ip-keeps e m (some j) direct h = elim (Bool-cases (j == my_ip)) [
    | inl me ↦ simp me h
    | inr other ↦ simp other (unless_direct-keeps e j m (get j m.peers_by_ip) direct refl h)
  ]

-- Whatever entries a peer sends, a peer that is connected, or that is not reached through another,
-- stays just as it is under its address.
pub add_from_pex-keeps_direct :
    (lib : Library) (now : ℕ) (es : List PexEntry) (sender_ip my_ip : ℕ) (keys : KeyPair)
    (m : PeerManager) (ip : ℕ) (p : Peer)
    → get ip m.peers_by_ip ≡ some p
    → is_direct lib now p ≡ true
    → get ip (add_from_pex lib now es sender_ip my_ip keys m).peers_by_ip ≡ some p
unfolding add_from_pex
add_from_pex-keeps_direct lib now [] sender_ip my_ip keys m ip p h direct = h
add_from_pex-keeps_direct lib now (e ∷ es) sender_ip my_ip keys m ip p h direct =
    add_from_pex-keeps_direct lib now es sender_ip my_ip keys
      (with_ip lib now e sender_ip my_ip keys m (lib.parse_ip e.wolfnet_ip)) ip p
      (with_ip-keeps lib now sender_ip my_ip keys ip p e m (lib.parse_ip e.wolfnet_ip) direct h)
      direct

same_key_eq : (a b : List ℕ) → same_key a b ≡ true → a ≡ b
same_key_eq [] [] h = refl
same_key_eq [] (y ∷ ys) h = cc h
same_key_eq (x ∷ xs) [] h = cc h
same_key_eq (x ∷ xs) (y ∷ ys) h = ground (arith, h, same_key_eq xs ys)

-- The peer found, if there is one, passes the test.
Passes : (Peer → Bool) → Option (ℕ × Peer) → Type 0
Passes test none = Unit {0}
Passes test (some (j, q)) = test q ≡ true

find_peer-Passes : (test : Peer → Bool) (ps : List (ℕ × Peer)) → Passes test (find_peer test ps)
unfolding find_peer Passes
find_peer-Passes test [] = tt
find_peer-Passes test ((j, q) ∷ ps) = elim (Bool-cases (test q)) [
  | inl e ↦ simp e refl
  | inr e ↦ simp e (find_peer-Passes test ps)
]

get_put : {V : Type 0} (k : ℕ) (v : V) (m : List (ℕ × V)) → get k (put k v m) ≡ some v
get_put k v m = get-put k k v m ∙ simp (same k) refl
  where
    same : (n : ℕ) → (n == n) ≡ true
    same n = ground arith

-- The peer is found by its endpoint, has its key under its address, and no relay.
unfoldable pub IsReached : List ℕ → ℕ → ℕ → PeerManager → Type 0
IsReached key endpoint ip m =
    (find_ip_by_endpoint endpoint m ≡ some ip)
    × ((q : Peer) × (get ip m.peers_by_ip ≡ some q)
        × (q.public_key ≡ key)
        × (q.endpoint ≡ some endpoint)
        × (q.relay_via ≡ none))

module _ (lib : Library) (key : List ℕ) (endpoint ip : ℕ) (hostname : String) (is_gateway : Bool)
    (m : PeerManager) where
  migrate-IsReached :
      (o : Option (ℕ × Peer))
      → Passes (λ (q : Peer). same_key q.public_key key) o
      → IsReached key endpoint ip (migrate_or_add lib key endpoint ip hostname is_gateway m o)
  unfolding IsReached Passes
  migrate-IsReached none h = (get_put endpoint ip _, (_, get_put ip _ _, refl, refl, refl))
  migrate-IsReached (some (old_ip, p)) h = elim (Bool-cases (not (old_ip == ip))) [
    | inl moved ↦
        simp moved
          (get_put endpoint ip _, (_, get_put ip _ _, same_key_eq p.public_key key h, refl, refl))
    | inr here ↦ simp here (get_put endpoint ip _, (_, get_put ip _ _, refl, refl, refl))
  ]

  known-IsReached :
      (o : Option Peer)
      → IsReached key endpoint ip (update_known lib key endpoint ip hostname is_gateway m o)
  unfolding IsReached
  known-IsReached none = migrate-IsReached _ (find_peer-Passes _ m.peers_by_ip)
  known-IsReached (some p) = elim (Bool-cases (same_key p.public_key key)) [
    | inl same ↦
        simp same (
          get_put endpoint ip _,
          (_, get_put ip _ _, same_key_eq p.public_key key same, refl, refl),
        )
    | inr other ↦ simp other (migrate-IsReached _ (find_peer-Passes _ m.peers_by_ip))
  ]

-- After discovery tells of a peer it is found by the endpoint it was heard from, and under its address
-- is a peer with its key and that endpoint that is not reached through another, whatever was known
-- before of the key and of the address.
pub update_from_discovery-IsReached :
    (lib : Library) (key : List ℕ) (endpoint ip : ℕ) (hostname : String) (is_gateway : Bool)
    (m : PeerManager)
    → IsReached key endpoint ip (update_from_discovery lib key endpoint ip hostname is_gateway m)
unfolding update_from_discovery
update_from_discovery-IsReached lib key endpoint ip hostname is_gateway m =
    known-IsReached lib key endpoint ip hostname is_gateway m (get ip m.peers_by_ip)
