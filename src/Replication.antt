-- ===== src/Replication.antt =====
-- controller/replication: the operation log, the handlers that replay remote operations, and the
-- protocol that fetches them.
pub mod Operation
pub mod Database
pub mod Log
pub mod Users
pub mod Files
pub mod Tags
pub mod Chunks
pub mod Applier
pub mod AntiEntropy
pub mod Service
pub mod Emitter
pub mod ChunkGc
