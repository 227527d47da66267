-- ===== src/Detection.antt =====
-- STCN/Session1/Lab_Session_1/Exp02_Error_Detection: the Internet checksum, the CRC and the parity
-- codes.
pub mod Checksum
pub mod Crc
pub mod Parity
