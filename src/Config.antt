-- ===== src/Config.antt =====
-- redeye_config: what a tenant's administrator sets, and the routing mesh that the gateways get.
pub mod Failures
pub mod Settings
pub mod Mesh
mod Tests
