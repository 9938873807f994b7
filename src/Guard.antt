-- ===== src/Guard.antt =====
-- redeye_gateway/src/usecases/behavior_guard.rs: the guards that stop runaway agents. Each child
-- models one guard over the part of Redis that it talks to.
pub mod Loop
pub mod Budget
pub mod Burn
pub mod Sandbox
mod Tests
