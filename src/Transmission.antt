-- ===== src/Transmission.antt =====
-- firmware/src/transmission.c, firmware/lib/modules/inc/transmission.h: what the PC and the board
-- send to each other.
pub mod Table
pub mod Checksum
pub mod Packet
pub mod Layout
pub mod Tests
pub mod Range
