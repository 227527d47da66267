-- ===== src/Routing.antt =====
-- STCN/Session1/Lab_Session_1/Exp06_Routing_Algorithms.
pub mod Dijkstra
pub mod DistanceVector
