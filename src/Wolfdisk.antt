-- ===== src/Wolfdisk.antt =====
-- wolfdisk/src/: the distributed file system's storage.
pub mod Paths
pub mod Cache
pub mod Chunks
pub mod Cluster
pub mod Inodes
pub mod Index
pub mod Filesystem
pub mod Replicas
pub mod Requests
pub mod Errors
