-- ===== src/Agent.antt =====
-- internal/agent: the runtime of an agent.
pub mod Streams
pub mod Queue
pub mod Config
pub mod Mcp
pub mod Runner
pub mod Providers
