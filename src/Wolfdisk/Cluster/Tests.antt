-- ===== src/Wolfdisk/Cluster/Tests.antt =====
-- wolfdisk/src/cluster/state.rs at small clusters.
use wolf_scale.Base.{String, ◌≡◌, refl, true, false, none, [], ◌∷◌, inl, insert, str_lt}
use wolf_scale.Wolfdisk.Cluster.{
  PeerInfo, ClusterManager, following, auto_role, is_leader, election_round, i_am_lowest,
  latest_ops, changes_since,
}
use wolf_scale.Wolfdisk.Cluster.Election.{Sees, one_leader}
use wolf_scale.Wolfdisk.Cluster.Changes.{IsDelta, changes_since-IsDelta}

abbrev seen : String → PeerInfo
seen id = record { node_id = id; address = ""; is_leader = false; is_client = false; last_seen = 0 }

abbrev node : String → String → ClusterManager
node id other = record {
  node_id = id;
  role = auto_role;
  state = following;
  leader_id = none;
  peers = (other, seen other) ∷ [];
  term = 0;
  last_leader_heartbeat = 0;
  index_version = 3;
  initial_sync_complete = true;
  changelog =
      record { version = 2; path = "a"; is_deleted = false }
      ∷ record { version = 3; path = "b"; is_deleted = true }
      ∷ [];
}

a-Sees : Sees 1000 (node "a" "b") "b"
a-Sees = record { peer = seen "b"; active = inl refl; server = refl; named = refl }

b-Sees : Sees 1000 (node "b" "a") "a"
b-Sees = record { peer = seen "a"; active = inl refl; server = refl; named = refl }

one_leader_example : is_leader (election_round 1000 (node "b" "a")) ≡ false
unfolding is_leader election_round i_am_lowest str_lt
one_leader_example = one_leader 1000 1000 (node "a" "b") (node "b" "a") a-Sees b-Sees refl

changes_since-IsDelta_example : IsDelta 2 (node "a" "b").changelog ([], "b" ∷ []) "b"
unfolding changes_since latest_ops insert
changes_since-IsDelta_example = changes_since-IsDelta 2 (node "a" "b") ([], "b" ∷ []) "b" refl
