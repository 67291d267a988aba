-- ===== src/Sensors.antt =====
-- The sensors of src/sensors, on what they read. The next reading of a file is an argument: what
-- fopen, fseek, fgets, fread and fscanf make of it.
pub mod Files
pub mod Stdio
pub mod Streams
pub mod Discovery
pub mod Throttle
pub mod Network
pub mod Disk
pub mod Cpu
pub mod Memory
pub mod Psi
pub mod Softirqs
pub mod Interrupts
pub mod CpuFreq
pub mod Thermal
pub mod Tegrastats
pub mod Gpu
pub mod Measured
pub mod Failures
pub mod Leaks
