-- ===== src/Router.antt =====
-- redeye_gateway/src/infrastructure/llm_router.rs: choosing the provider key for a request, and
-- falling back to the next one. `Keys` orders and filters the keys, `Request` builds the provider's
-- request, `Upstream` sends it; `Selection` and `Fallback` hold the proofs.
pub mod Keys
pub mod Request
pub mod Upstream
pub mod Selection
pub mod Fallback
pub mod Exhaustion
pub mod Strategy
mod Tests
