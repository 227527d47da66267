-- ===== src/Ciphers.antt =====
-- STCN/Session1/Lab_Session_1/Exp09_Cryptography_Ciphers: the Caesar and the substitution cipher.
pub mod Caesar
pub mod Substitution
