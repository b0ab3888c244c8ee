-- ===== src/State.antt =====
-- state/: the members of the cluster, the election and the persistent state of a node.
pub mod Membership
pub mod Tracker
pub mod Election
mod Tests
