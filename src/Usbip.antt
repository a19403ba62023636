-- ===== src/Usbip.antt =====
-- The usbip crate: a USB/IP server for simulated devices (usbip/src).
pub mod Cdc
pub mod Hid
pub mod Host
pub mod Io
pub mod MockSocket
pub mod Verify
pub mod World
pub mod Consts
pub mod Endpoint
pub mod Setup
pub mod Device
pub mod Protocol
pub mod Server
pub mod Tests
