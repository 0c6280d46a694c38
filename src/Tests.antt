-- ===== src/Tests.antt =====
-- Runs on concrete inputs.
pub mod Clocks
pub mod Controller
pub mod Peer
pub mod Answers
pub mod Chunks
pub mod Commands
pub mod Transfers
pub mod Accounts
pub mod Client
