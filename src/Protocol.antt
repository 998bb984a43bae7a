-- ===== src/Protocol.antt =====
-- src/ida_bridge/protocol.py: the messages, the rules that pydantic enforces on them through the
-- module's own validators, the responses built for a request, and the address settings.
pub mod Json
pub mod Message
pub mod Response
pub mod Classify
