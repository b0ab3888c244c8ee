-- ===== src/State/Membership/Counts.antt =====
-- The counts of state/membership.rs: quorum and summary.
use wolf_scale.Base.{◌+◌, ◌*◌, ◌≤◌, ◌<◌, ◌≡◌, arith, length, leb}
use wolf_scale.State.Membership.{ClusterMembership, size, quorum_size, has_quorum, active_nodes}

-- Two groups of the quorum's size out of the cluster share a node, and one more node than needed
-- for that is never asked for.
pub quorum_size_majority :
    (c : ClusterMembership) → (size c < 2 * quorum_size c) × (2 * quorum_size c ≤ size c + 2)
unfolding quorum_size
quorum_size_majority c = omega arith

-- In a cluster of two or three nodes `has_quorum` says whether a majority is active.
pub has_quorum-quorum_size :
    (c : ClusterMembership)
    → 2 ≤ size c
    → size c ≤ 3
    → has_quorum c ≡ leb (quorum_size c) (length (active_nodes c))
unfolding has_quorum quorum_size
has_quorum-quorum_size c low high = ground arith
