-- ===== src/Worker/Liveness.antt =====
-- Rounds of the worker until a run is at its analysis.
pub mod Stages
pub mod Claims
pub mod Turns
pub mod Analysing
