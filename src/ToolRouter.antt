-- ===== src/ToolRouter.antt =====
-- redeye_gateway/src/usecases/tool_router.rs: the registry of MCP tools, the stripping of their
-- schemas from a request, and the phantom tool that serves them again.
pub mod Embedding
pub mod Registry
pub mod Requested
pub mod Injection
pub mod Phantom
mod Tests
