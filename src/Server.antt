-- ===== src/Server.antt =====
-- The bridge server (src/ida_bridge/server.py). `State` and `Co` are the ground: the server object,
-- and coroutines that stop at each `await`. Then one module for each group of methods.
pub mod State
pub mod Co
pub mod Ownership
pub mod Policy
pub mod Disconnect
pub mod Forward
pub mod Reply
pub mod Hello
pub mod Bridge
pub mod Route
pub mod Handler
pub mod Loop
pub mod Law
pub mod Timeouts
pub mod Expected
