-- ===== src/Usbip/Server.antt =====
-- usbip/src/lib.rs: the server's two device tables, and the loop that serves one connection. Each
-- arm of the loop holds the locks that it takes until its answer is written, so an arm is one step.
pub mod Tables
pub mod Connection
pub mod TakeFirst
pub mod Consistency
pub mod Conservation
pub mod Serving
pub mod Ending
pub mod Effects
pub mod Holders
pub mod Interleaving
pub mod Answers
pub mod Reimport
