-- ===== src/Scheduler.antt =====
-- apps/scheduler: when a job fires next, and the tick that fires it.
pub mod Schedules
pub mod Steps
pub mod Parsed
pub mod Next
pub mod Model
pub mod Services
pub mod Quiet
pub mod Claims
pub mod LeftOut
pub mod Left
pub mod Records
pub mod Registry
pub mod Kept
pub mod Retired
pub mod Reversible
mod SyncTests
mod Tests
