-- ===== src/Usbip/Protocol.antt =====
-- usbip/src/usbip_protocol.rs: the packets and their bytes. `Command` has the client's commands and
-- how they are read, `Response` the server's answers; the proofs stand below these two.
pub mod Header
pub mod Command
pub mod Response
pub mod RoundTrip
pub mod Progress
pub mod Sizes
