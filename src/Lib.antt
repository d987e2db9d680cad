-- ===== src/Lib.antt =====
-- Forever is a client of the Soulseek network: a desktop program whose Rust half lives in
-- src-tauri. The server tells it about users, rooms, searches and the addresses of peers; peers
-- send it search results, folder listings and files; a distributed parent hands it the searches of
-- others. Every message from any of them passes through one file,
-- src-tauri/src/connection/protocol.rs, which this library models whole, down to the position in
-- the payload. The searches that the client itself starts pass through
-- src-tauri/src/connection/search_governor.rs, modelled whole but for its timer task.
--
-- Prelude, Bytes and Text are helpers: Boolean tests and lists over the native numbers, words and
-- their little-endian bytes, and what the code uses of Rust's standard library on text: UTF-8
-- decoding, strict and lossy (Text/Utf8), `trim` (Text/Trim), the ASCII tests.
--
-- Protocol models protocol.rs, by the same names. A `Vec<u8>` and a `String` are the list of their
-- bytes, a `usize` has 64 bits, and a function returns Result (Protocol/Error): a value, a
-- `ProtocolError`, or `panicked` for an `expect` that fails. Codes holds the constants, Types the
-- structs; Writer has `push_u32` and the other writers, Reader has `PayloadReader` as a
-- state-passing monad, Framing has `encode_message` and the functions that read one frame off a
-- stream, which is the list of the bytes still to come, an end of which is an I/O error. Fields
-- has the checks that parsers share. Users, Rooms and Server have the parsers of the server's
-- messages, Distributed those of a parent's, Peer those between peers, Listings the compressed
-- lists in both directions, Outgoing the frame builders. Each has its properties in child modules:
-- Limits for what an accepted message keeps to, RoundTrip for a frame that is written by one side
-- and read by the other. Reader/Reads and Reader/Ensures are the two calculi of these proofs: what
-- a reader makes of bytes that begin as expected, and what it guarantees of any bytes.
--
-- A loop over a count that was read is recursion on that count, so no fuel is needed and every
-- function is total. A capacity reserved ahead (`with_capacity`) is not modelled, and neither is
-- running out of memory.
--
-- Two crates are parameters. flate2 is the record Zlib (Listings/Zlib); the round trip of search
-- results asks that it is lossless, and the limits that what it yields are bytes. md5 is an
-- argument of `login_frame`.
--
-- SearchGovernor models search_governor.rs. Its `Budget` is the state behind the mutex, an
-- `Instant` is a number of nanoseconds, and the closure that `take_next` calls is a function on
-- the state that it captures. Trace makes a session of events from its operations, on a clock that
-- never goes back; Spacing and Priority prove what it promises.
--
-- Uploads models src-tauri/src/connection/uploads.rs: the record UploadHub (Uploads/Hub) is what
-- its locks guard, an operation is a function on it that takes the clock and, where it saves, what
-- the file system does (`Saving`), and returns its answer with the new state. It is one step,
-- though some operations take their locks more than once: what another thread does in between is
-- not modelled. Types has the records, Operations the ones that fill the queue and hand out
-- connections, Transfers those of a running upload and its end, Queue those on the whole queue,
-- the stored queue and `load`. Valid is the invariant and Shrinks and Grows its two ways to be
-- kept; Keeps, Preserved, Joins, Activates, Slots and Returns are the operations, Runs every
-- sequence of them, Cancelled and Disconnect what is left after a lost connection. The store that
-- serde parses is the list of uploads and of served names that `decode_store` checks; an I/O error
-- is its text.
--
-- UploadPolicy models src-tauri/src/connection/upload_policy.rs, which UploadHub calls: a set of
-- names is a list, the counts gathered in a map are a function of the name. Waiting is about the
-- list of queued uploads and Choice about the least of the candidates; Order is the order of their
-- keys; Fair and Fifo prove what the choice keeps to. The loop of `refresh_positions` has one
-- round for each upload as fuel; Ranks proves that this is enough, Numbers what numbers it gives,
-- Positions that it changes nothing else.
--
-- RequestGuard models the guard of src-tauri/src/connection/distributed.rs on the searches that
-- peers send: Seen is about the searches it remembers, Bounds about its size, Window about what it
-- admits, Duplicates about how long it remembers. Branch models
-- src-tauri/src/connection/branch.rs, which relays admitted searches to children: Capacity and
-- Life prove its bounds through every sequence of events, Frames that a child reads what it sends.
-- The channel of a child is the list of frames that it holds; the task that empties it is a step
-- of its own. A `HashMap` is a list of its entries.
--
-- TransferWriter models src-tauri/src/connection/transfer_writer.rs: the state behind the mutex,
-- the worker thread and each call of `flush` as small machines that test their loop, sleep on the
-- condition variable until `notify_all` wakes them or they wake by themselves, and go on, and the
-- steps in which they take turns, with what was submitted and written on record. Valid is the
-- invariant and Kept that each step keeps it; Invariant and Progress prove what `flush` promises.
--
-- Messages models src-tauri/src/connection/messages.rs: the store is the list of conversations,
-- Operations has the operations of `MessagesHub` as functions on it, of the clock and what the
-- file system does with a save. A store that could not be saved stays as it was changed, which is
-- what the code does. Valid is the invariant, Kept and Preserved prove that changes and operations
-- keep it, Runs every sequence of them from an empty store on; that a stored file keeps the bounds
-- is not checked by the code and not assumed.
--
-- Bandwidth models of src-tauri/src/connection/bandwidth.rs the settings, the schedule and the
-- limits in force: a minute of the day and a time are arguments, and of a bucket only its rate and
-- the time of its making are kept. Schedule is about the hours of the alternate limits, InForce
-- about the state after every sequence of changes.
--
-- Not modelled: the services that call these files (downloads, the wanted list, rooms,
-- reachability, stores on disk), which run on tokio tasks; the token buckets of bandwidth.rs,
-- which are floating point, and the permits that draw on them; what the interface shows of the
-- distributed network; the library, archive, statistics and matching parts; the desktop shell and
-- the user interface. The publishing of snapshots to the interface is left out everywhere, and
-- `write_raw_frame` only hands bytes to a socket.
pub mod Prelude
pub mod Bytes
pub mod Text
pub mod Protocol
pub mod SearchGovernor
pub mod Uploads
pub mod UploadPolicy
pub mod RequestGuard
pub mod Branch
pub mod Messages
pub mod Bandwidth
pub mod TransferWriter
mod Examples
