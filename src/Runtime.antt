-- ===== src/Runtime.antt =====
-- src/ida_bridge/ida_runtime.py: what an IDA does with a request.
pub mod Serialize
pub mod Depth
pub mod Handler
pub mod Answers
