-- ===== src/Pii.antt =====
-- redeye_compliance/src/usecases/pii_engine.rs: the two tiers of the PII scan over a JSON payload
-- and the redaction of what the second tier confirms.
mod Tests
pub mod Failures
pub mod Texts
pub mod Replace
pub mod Engine
pub mod Presidio
pub mod Digits
pub mod Shape
pub mod Tokens
pub mod Scan
pub mod Closing
pub mod Lossless
