-- ===== src/Router/Tests.antt =====
-- lb.rs at a cluster of one node.
use wolf_scale.Base.{◌≡◌, ◌⊎◌, some, none}
use wolf_scale.State.Membership.{NodeState}
use wolf_scale.State.Membership
use wolf_scale.Router.{LoadBalancerRouter, new, get_leader, get_read_node}
use wolf_scale.Router.Reads.{Serves, get_read_node-Serves}

abbrev router : LoadBalancerRouter
router = new (Membership.new 0 "a" "a:1" 1000 2000) none

get_read_node-Serves_example :
    (((get_read_node router).0 ≡ get_leader router) × ((n : NodeState) → Serves router n → ⊥))
    ⊎ ((n : NodeState) × ((get_read_node router).0 ≡ some n) × Serves router n)
get_read_node-Serves_example = get_read_node-Serves router
