-- ===== src/Mcp.antt =====
-- internal/mcpbridge: the bearer of the bridge, and OAuth in front of it.
pub mod Bearer
pub mod OAuth
pub mod Facade
pub mod Bridge
