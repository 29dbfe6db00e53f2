-- ===== src/Processes.antt =====
-- Processes that wait for one another: labs/lab_14_processes_in_action.c (Reaping),
-- labs/lab_15_context_switching.c (PingPong) and labs/lab_17_first_process.c (Ancestors).
pub mod PingPong
pub mod Reaping
pub mod Ancestors
