-- ===== src/Approvals.antt =====
-- apps/approvals: requests that a human decides.
pub mod Model
pub mod Permissions
pub mod Services
pub mod Race
pub mod History
pub mod Tests
