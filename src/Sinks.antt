-- ===== src/Sinks.antt =====
-- include/sinks and src/sinks.
pub mod Redis
