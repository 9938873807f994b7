-- ===== src/Router/Strategy.antt =====
-- redeye_gateway/src/infrastructure/routing_strategy.rs.
use red_eye_engine_gateway.Common.{Option, none, some, String, str_eq, if◌then◌else◌}

pub data RoutingStrategy : Type 0 where
  default least_latency cost_optimized : RoutingStrategy

abbrev pub from_header : Option String → RoutingStrategy
from_header none = default
from_header (some v) =
    if str_eq v "least_latency"
    then least_latency
    else if str_eq v "cost_optimized"
    then cost_optimized
    else default
