-- ===== src/Protocol/Listings.antt =====
-- The compressed file lists of protocol.rs: search results, folders and shares, read and written.
pub mod Zlib
pub mod Entry
pub mod Read
pub mod Write
pub mod Layout
pub mod Packed
pub mod RoundTrip
pub mod Limits
pub mod Shares
