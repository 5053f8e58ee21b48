-- ===== src/Tftp.antt =====
-- hw1/tftp_server.c: the TFTP server.
pub mod Packet
pub mod Request
pub mod Wrq
pub mod Rrq
mod Tests
