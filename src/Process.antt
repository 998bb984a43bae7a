-- ===== src/Process.antt =====
-- Processes of the host: src/ida_bridge/proc.py, and what the supervisor does with them.
pub mod Tree
