-- ===== src/Core.antt =====
-- include/core and src/core.
pub mod Math
pub mod Sampler
pub mod Text
pub mod Numbers
pub mod Config
