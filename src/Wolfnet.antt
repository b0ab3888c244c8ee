-- ===== src/Wolfnet.antt =====
-- wolfnet/src/: the private network's session cipher and its peers.
pub mod Cipher
pub mod Peers
