-- ===== src/Cli.antt =====
-- The command line (rediq-cli/src).
pub mod Utils
pub mod Shortening
pub mod Dashboard
pub mod Commands
