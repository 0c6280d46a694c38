-- ===== src/Chunkserver.antt =====
-- chunkserver/: the index, the files on disk and the two gRPC services.
pub mod Storage
pub mod Checksum
pub mod Index
pub mod Server
pub mod Peers
pub mod History
