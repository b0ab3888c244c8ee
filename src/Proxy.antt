-- ===== src/Proxy.antt =====
-- proxy/: the packets of the MySQL wire protocol.
pub mod Protocol
