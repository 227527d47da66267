-- ===== src/Framing.antt =====
-- STCN/Session1/Lab_Session_1/Exp01_Framing: bit stuffing and byte stuffing.
pub mod BitStuffing
pub mod ByteStuffing
