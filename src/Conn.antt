-- ===== src/Conn.antt =====
-- src/ida_bridge/bridge_conn.py: the IDA side of a bridge connection.
pub mod State
pub mod Send
pub mod Receive
pub mod Answers
pub mod Invariant
pub mod Methods
pub mod Loop
pub mod Queue
pub mod Requests
