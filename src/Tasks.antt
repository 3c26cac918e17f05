-- ===== src/Tasks.antt =====
-- apps/tasks: retries, lost workers and late completions of background tasks.
pub mod Model
pub mod Policy
pub mod Retry
pub mod Late
pub mod Repair
pub mod Chain
pub mod Reaper
pub mod Delay
pub mod Samples
pub mod Tests
pub mod Decide
pub mod Keys
pub mod Reach
pub mod Once
pub mod Cancel
pub mod Verdict
pub mod Spared
pub mod Walks
pub mod Forks
pub mod ChainTests
pub mod Signals
pub mod Heartbeat
pub mod Alive
mod HeartbeatTests
