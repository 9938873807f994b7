-- ===== src/Proxy.antt =====
-- redeye_gateway/src/usecases/proxy.rs: the pipeline of a request, from the redaction of its body to
-- the upstream call, and the accounting of what a response used.
pub mod Redaction
pub mod Pipeline
pub mod Cleared
pub mod Stages
pub mod Sent
mod Tests
pub mod Usage
pub mod Telemetry
pub mod Buffered
