-- ===== src/Cw/Decoder.antt =====
-- apps/cw/engine/cw.py: the streaming decoder.
pub mod State
pub mod Elements
pub mod Stream
pub mod Spacing
pub mod Growth
pub mod Finish
mod Tests
