-- ===== src/Derived.antt =====
-- include/derived and src/derived: the pressures computed from the raw signals.
pub mod Ema
pub mod Weighted
pub mod Io
pub mod Memory
pub mod Thermal
pub mod Power
pub mod Scheduler
pub mod Jitter
