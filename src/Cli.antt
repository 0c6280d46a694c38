-- ===== src/Cli.antt =====
-- cli/: the command line client.
pub mod Parser
pub mod Client
