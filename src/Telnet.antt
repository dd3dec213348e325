-- ===== src/Telnet.antt =====
-- src/telnet_protocol.c: the Telnet session, from raw bytes to lines and from text to raw bytes.
pub mod Rate
pub mod Terminal
pub mod Session
pub mod Line
pub mod Login
pub mod Opt
pub mod Options
pub mod Payloads
pub mod Framing
pub mod Gmcp
pub mod Mssp
pub mod Output
pub mod Handlers
