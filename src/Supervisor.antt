-- ===== src/Supervisor.antt =====
-- internal/supervisor.
pub mod Machine
pub mod Locked
pub mod Goroutines
pub mod Run
pub mod Channels
pub mod Leases
pub mod Idling
pub mod Ready
pub mod Control
pub mod Processes
pub mod Inhibit
mod Tests
