-- ===== src/Risk.antt =====
-- include/risk and src/risk.
pub mod Realtime
pub mod Saturation
pub mod State
