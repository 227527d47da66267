-- ===== src/Correction.antt =====
-- STCN/Session1/Lab_Session_1/Exp03_Error_Correction.
pub mod Hamming
