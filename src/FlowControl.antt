-- ===== src/FlowControl.antt =====
-- STCN/Session1/Lab_Session_1/Exp07_Flow_Control: Go-Back-N and stop-and-wait.
pub mod GoBackN
pub mod StopAndWait
