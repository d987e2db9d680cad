-- ===== src/Protocol/Outgoing.antt =====
-- The frames that protocol.rs writes, but the compressed lists.
pub mod Server
pub mod Peer
