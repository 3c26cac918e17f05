-- ===== src/Cw.antt =====
-- apps/cw: the CW workbench.
pub mod Morse
pub mod Events
pub mod Floats
pub mod Decoder
pub mod Bridge
pub mod Milli
pub mod Rig
pub mod Transmit
pub mod Unkeys
mod TransmitTests
pub mod Logbook
pub mod Adif
pub mod AdifFields
pub mod AdifLines
pub mod AdifRoundTrip
mod AdifTests
pub mod Import
pub mod Known
pub mod Reimport
pub mod Contacts
mod ImportTests
