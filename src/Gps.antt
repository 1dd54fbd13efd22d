-- ===== src/Gps.antt =====
-- uart/read_gps.c: reading NMEA sentences from a serial line.
pub mod Clock
pub mod Packet
pub mod Frames
pub mod Receive
pub mod Fields
