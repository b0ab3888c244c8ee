-- ===== src/Wolfdisk/Cluster/Election.antt =====
-- Who leads after rounds of the election monitor of wolfdisk/src/cluster/state.rs.
use wolf_scale.Base.{
  ℕ, ◌≡◌, refl, ap, sym, ◌∙◌, String, true, false, Option, none, some, List, [], ◌∷◌, arith, inl,
  inr, Bool-cases, Member, str_lt, str_lt_asymm, first,
}
use wolf_scale.Wolfdisk.Cluster.{
  is_leading, is_leader, ClusterState, discovering, following, leading, client, standalone,
  PeerInfo, ClusterManager, active_peers, below_all, i_am_lowest, stand_by, by_state,
  election_round,
}

false-true : false ≡ true → ⊥
false-true h = cc

stand_by-lowest :
    (now : ℕ) (o : Option PeerInfo) (m : ClusterManager)
    → is_leading m.state ≡ false
    → is_leading (stand_by now o m).state ≡ true
    → i_am_lowest now m ≡ true
stand_by-lowest now (some p) m no_leader h = ground (arith, h)
stand_by-lowest now none m no_leader h = ground (arith, h, no_leader)

by_state-lowest :
    (now : ℕ) (st : ClusterState) (m : ClusterManager)
    → m.state ≡ st
    → is_leading (by_state now st m).state ≡ true
    → i_am_lowest now m ≡ true
by_state-lowest now discovering m same h =
    stand_by-lowest now (first (λ p. p.is_leader) (active_peers now m)) m (ap is_leading same) h
by_state-lowest now following m same h =
    stand_by-lowest now (first (λ p. p.is_leader) (active_peers now m)) m (ap is_leading same) h
by_state-lowest now leading m same h = ground (arith, h)
by_state-lowest now client m same h = absurd (false-true (sym (ap is_leading same) ∙ h))
by_state-lowest now standalone m same h = absurd (false-true (sym (ap is_leading same) ∙ h))

-- A node that leads after a round has the lowest id of the servers that it sees.
election_round-lowest :
    (now : ℕ) (m : ClusterManager)
    → is_leader (election_round now m) ≡ true
    → i_am_lowest now m ≡ true
unfolding election_round is_leader
election_round-lowest now m h = by_state-lowest now m.state m refl h

below_all-Member :
    (id : String) (p : PeerInfo) (ps : List PeerInfo)
    → below_all id ps ≡ true
    → Member p ps
    → p.is_client ≡ false
    → str_lt id p.node_id ≡ true
below_all-Member id p [] h m server = absurd m
below_all-Member id p (q ∷ ps) h (inl same) server =
    let server' : q.is_client ≡ false = ap (λ r. r.is_client) same ∙ server in
    let low : str_lt id q.node_id ≡ true = ground (arith, h, server') in
    ap (λ r. str_lt id r.node_id) (sym same) ∙ low
below_all-Member id p (q ∷ ps) h (inr m) server =
    below_all-Member id p ps (ground (arith, h)) m server

-- A node sees another as an active server.
pub record Sees (now : ℕ) (m : ClusterManager) (id : String) : Type 0 where
  pub peer : PeerInfo
  pub active : Member peer (active_peers now m)
  pub server : peer.is_client ≡ false
  pub named : peer.node_id ≡ id

leads_below :
    (now : ℕ) (m : ClusterManager) (id : String)
    → is_leader (election_round now m) ≡ true
    → Sees now m id
    → str_lt m.node_id id ≡ true
leads_below now m id h sees =
    let lowest = election_round-lowest now m h in
    ap (str_lt m.node_id) (sym sees.named)
    ∙ below_all-Member m.node_id sees.peer (active_peers now m) (unfold i_am_lowest in lowest)
        sees.active sees.server

-- Of two nodes that see each other as active servers, at most one leads after a round of each,
-- whatever their states and terms were.
pub one_leader :
    (now later : ℕ) (a b : ClusterManager)
    → Sees now a b.node_id
    → Sees later b a.node_id
    → is_leader (election_round now a) ≡ true
    → is_leader (election_round later b) ≡ false
one_leader now later a b sees seen leads = elim (Bool-cases (is_leader (election_round later b))) [
  | inr follows ↦ follows
  | inl both ↦
      let below = leads_below now a b.node_id leads sees in
      let above = leads_below later b a.node_id both seen in
      absurd (false-true (sym (str_lt_asymm a.node_id b.node_id below) ∙ above))
]
