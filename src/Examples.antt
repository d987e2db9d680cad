-- ===== src/Examples.antt =====
-- Tests: the theorems at small messages and events.
mod Peer
mod Listings
mod Limits
mod Governor
mod Uploads
mod Profile
mod Network
mod Messages
mod Schedule
