-- ===== src/Replication.antt =====
-- replication/: the messages between nodes, the leader and the follower.
pub mod Protocol
pub mod Follower
pub mod Leader
mod Tests
