-- ===== src/Tests.antt =====
-- Runs of the development at concrete inputs, over the fixed-point arithmetic of Float/Fixed.antt.
pub mod Fixtures
pub mod Agents
pub mod Levels
pub mod Windows
pub mod Sinks
pub mod Files
pub mod Readings
pub mod Boards
pub mod Child
pub mod Streams
pub mod Values
pub mod Mcp
pub mod Machine
pub mod Answers
