-- ===== src/Mcp.antt =====
-- The program of tools/hw-agent-mcp, which answers the requests of a client about the metrics.
pub mod Json
pub mod Attempt
pub mod JsonRpc
pub mod Resources
pub mod Answer
pub mod Server
pub mod RoundTrip
pub mod Replies
pub mod Defined
pub mod Loop
pub mod Window
pub mod Action
pub mod Redis
pub mod Keys
pub mod Selection
pub mod Metrics
