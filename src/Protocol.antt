-- ===== src/Protocol.antt =====
-- common/protocol.py: the messages as JSON values.
pub mod Json
pub mod Operations
pub mod Chunks
pub mod Peers
