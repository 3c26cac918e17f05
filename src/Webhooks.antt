-- ===== src/Webhooks.antt =====
-- apps/webhooks: outbound deliveries with their retries, and inbound receivers.
pub mod Model
pub mod Headers
pub mod HeadersAsDict
pub mod Hooks
pub mod Guard
pub mod Patterns
pub mod Backoff
pub mod Send
pub mod Deliver
pub mod Services
pub mod Steps
pub mod Sound
pub mod Counts
pub mod Claimed
pub mod Ended
pub mod Attempts
pub mod Orderly
pub mod Single
pub mod Terminal
pub mod Inbound
pub mod Admission
pub mod Quieted
pub mod Rejections
pub mod FanOut
pub mod Samples
mod Tests
mod SendTests
mod InboundTests
pub mod Wire
pub mod Verified
pub mod Guarded
