-- ===== src/Examples.antt =====
-- The theorems about the code under src/ida_bridge at concrete inputs, and tests.
pub mod Scene
mod Loop
mod Requests
mod Replies
mod Timeouts
mod Leaving
mod Handshake
mod Sql
mod Tables
mod Writes
mod Reads
mod Comments
mod Clients
mod Names
mod Functions
mod Flow
mod Attached
mod Running
