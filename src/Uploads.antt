-- ===== src/Uploads.antt =====
-- src-tauri/src/connection/uploads.rs: the queue of the files that peers asked for.
pub mod Types
pub mod Hub
pub mod Operations
pub mod Transfers
pub mod Queue
pub mod Valid
pub mod Shrinks
pub mod Grows
pub mod Keeps
pub mod Preserved
pub mod Joins
pub mod Activates
pub mod Slots
pub mod Returns
pub mod Runs
pub mod Cancelled
pub mod Disconnect
