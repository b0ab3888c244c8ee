-- ===== src/Router.antt =====
-- lb.rs: where the load balancer sends a query. It reads the membership of state/membership.rs; the
-- round-robin counter wraps at 64 bits.
pub mod Reads
mod Tests
use wolf_scale.Base.{
  ℕ, zero, suc, ◌+◌, ◌-◌, ◌%◌, String, Bool, true, false, not, ◌&&◌, Option, none, some, List, [],
  ◌∷◌, ltb, leb, if◌then◌else◌, length, get_elem?, keep, u64, map,
}
use wolf_scale.State.Membership.{
  NodeState, ClusterMembership, NodeRole, load_balancer, is_active, all_nodes, current_leader,
}

pub record LoadBalancerRouter : Type 0 where
  pub cluster : ClusterMembership
  pub max_acceptable_lag : ℕ
  pub read_counter : ℕ
  pub read_nodes_cache : List NodeState

pub record LoadBalancerStats : Type 0 where
  pub leader_address : Option String
  pub read_node_count : ℕ
  pub read_node_addresses : List String
  pub total_reads_routed : ℕ

abbrev pub or_default : Option ℕ → ℕ
or_default none = 100
or_default (some n) = n

unfoldable pub new : ClusterMembership → Option ℕ → LoadBalancerRouter
new cluster max_acceptable_lag = record {
  cluster = cluster;
  max_acceptable_lag = or_default max_acceptable_lag;
  read_counter = 0;
  read_nodes_cache = [];
}

unfoldable pub get_leader : LoadBalancerRouter → Option NodeState
get_leader r = current_leader r.cluster

abbrev pub is_load_balancer : NodeRole → Bool
is_load_balancer load_balancer = true
is_load_balancer _ = false

abbrev pub lsn_of : Option NodeState → ℕ
lsn_of none = 0
lsn_of (some n) = n.last_applied_lsn

abbrev pub lag_of : ℕ → NodeState → ℕ
lag_of leader_lsn n =
    if ltb n.last_applied_lsn leader_lsn then leader_lsn - n.last_applied_lsn else 0

unfoldable pub is_readable : ℕ → ℕ → NodeState → Bool
is_readable max_lag leader_lsn n =
    if not (is_active n.status)
    then false
    else if is_load_balancer n.role
    then false
    else leb (lag_of leader_lsn n) max_lag

unfoldable pub healthy_read_nodes : LoadBalancerRouter → List NodeState
healthy_read_nodes r =
    keep (is_readable r.max_acceptable_lag (lsn_of (current_leader r.cluster)))
      (all_nodes r.cluster)

abbrev pub pick : List NodeState → LoadBalancerRouter → Option NodeState × LoadBalancerRouter
pick [] r = (get_leader r, r)
pick (n ∷ ns) r = (
  get_elem? (n ∷ ns) (r.read_counter % length (n ∷ ns)),
  record r { read_counter = u64 (r.read_counter + 1) },
)

unfoldable pub get_read_node : LoadBalancerRouter → Option NodeState × LoadBalancerRouter
get_read_node r = pick (healthy_read_nodes r) r

unfoldable pub refresh_read_nodes : LoadBalancerRouter → LoadBalancerRouter
refresh_read_nodes r = record r { read_nodes_cache = healthy_read_nodes r }

abbrev pub address_of : Option NodeState → Option String
address_of none = none
address_of (some n) = some n.address

unfoldable pub stats : LoadBalancerRouter → LoadBalancerStats
stats r = record {
  leader_address = address_of (get_leader r);
  read_node_count = length (healthy_read_nodes r);
  read_node_addresses = map (λ n. n.address) (healthy_read_nodes r);
  total_reads_routed = r.read_counter;
}
