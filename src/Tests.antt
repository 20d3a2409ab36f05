-- ===== src/Tests.antt =====
-- Tests on concrete data: the samples, and the uses of the theorems at them.
pub mod Samples
pub mod Tasks
pub mod Clients
pub mod Workers
pub mod Schedules
pub mod Routes
pub mod Runs
pub mod Fifos
pub mod Loops
pub mod Groups
pub mod Servers
pub mod Utils
pub mod Screens
pub mod Urgent
