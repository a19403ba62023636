-- ===== src/Usbip/Tests.antt =====
-- Small devices, connections and worlds, and what the theorems say of them.
pub mod Data
pub mod Packets
pub mod Devices
pub mod Interfaces
pub mod Serving
