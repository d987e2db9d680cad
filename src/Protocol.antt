-- ===== src/Protocol.antt =====
-- src-tauri/src/connection/protocol.rs: the Soulseek wire format.
pub mod Error
pub mod Codes
pub mod Types
pub mod Writer
pub mod Reader
pub mod Framing
pub mod Fields
pub mod Users
pub mod Rooms
pub mod Server
pub mod Distributed
pub mod Peer
pub mod Listings
pub mod Outgoing
