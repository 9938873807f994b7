-- ===== src/Mcp.antt =====
-- redeye_gateway/src/infrastructure/mcp_registry.rs and its use in api/handlers.rs: the scan of a
-- request for a registered tool, and the connections that are warmed for it ahead of time.
pub mod NameScan
pub mod Warming
mod Tests
