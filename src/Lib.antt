-- ===== src/Lib.antt =====
-- RedEye Engine Gateway: a model of the gateway between a client and the providers of language
-- models, and of what its services keep in Redis.
--
-- The configuration service keeps each tenant's settings and publishes the routing map that the
-- router reads. A chat request passes the limits and the guards, which may refuse it, and the
-- router, which picks the healthy keys of the requested model, translates the request into the
-- provider's format and tries the keys one after the other; the response is translated back and
-- shown to the sandbox.
--
--   Json      `serde_json::Value` and its accessors; Json/Lookup has the laws of its objects.
--   Chat      redeye_gateway/src/infrastructure/translators.rs and schema_mapper.rs: OpenAi,
--             Anthropic and Gemini are the three translators, each with `to_universal`,
--             `from_universal` and `unify_response`; Tools is the schema mapper.
--   Errors    redeye_gateway/src/error.rs: `GatewayError` and `into_response`.
--   Router    redeye_gateway/src/infrastructure/llm_router.rs and routing_strategy.rs: Keys is the
--             routing map and the circuit breaker, Request is `build_provider_request`, Upstream is
--             `prep_upstream_request` and `execute_upstream_request`. The times to live of the
--             breaker and of the fallback counters of Guard are those of redeye_gateway/src/main.rs.
--   Guard     redeye_gateway/src/usecases/behavior_guard.rs: Loop is `enforce_loop_detection`,
--             Budget `enforce_agentic_loop_budget`, Burn `enforce_burn_rate` and
--             `record_session_spend`, Sandbox `enforce_mcp_sandbox`.
--   Limit     RateLimit is redeye_gateway/src/api/middleware/rate_limit.rs, TokenBucket is
--             `enforce_token_bucket` and `sync_token_bucket` of usecases/proxy.rs; both run over
--             counters in Redis that expire.
--   Config    redeye_config/src: Mesh is `upsert_routing_mesh` of api/handlers.rs, Settings is
--             `upsert_config` of the same file with `UpdateConfigRequest` of domain/models.rs,
--             Failures is error.rs.
--   Geo       redeye_compliance/src/api/middleware/geo_routing.rs.
--   Pii       redeye_compliance/src/usecases/pii_engine.rs: Engine is the tables and the scan with
--             its two tiers, Presidio the analyzer with one regular expression per kind, Replace the
--             replacement in a text, Failures is error.rs.
--   Policy    redeye_compliance/src/usecases/opa_client.rs and api/middleware/security.rs: the
--             question to the policy engine, and what is done when it does not answer.
--   ToolRouter
--             redeye_gateway/src/usecases/tool_router.rs: Registry is the tool index, Embedding the
--             similarity of texts, Requested the tools that a conversation asks for, Injection the
--             summaries that replace schemas, Phantom the answer to a request of a schema.
--   Mcp       redeye_gateway/src/infrastructure/mcp_registry.rs: NameScan is the scan of raw bytes
--             for the name of a tool, Warming the warm connections and their permits.
--   ToolCalls redeye_gateway/src/infrastructure/mcp_client.rs: the tool calls of a response, FanOut
--             their execution ten at a time, Extraction what is found in a response.
--   L1Cache   redeye_gateway/src/infrastructure/l1_cache.rs: the exact layer and the semantic one.
--   Proxy     redeye_gateway/src/usecases/proxy.rs: Pipeline is `execute_proxy` with its stages in
--             their order, Redaction is `call_compliance_redact`, Usage the tokens of a response,
--             Telemetry and Buffered what a response leaves behind.
--   Tracer    redeye_tracer/src/infrastructure/latency_worker.rs: a tick of the worker that ranks the
--             providers by latency.
--   Common    lists, options, results, texts and integers as the sources use them.
--
-- Services and libraries are parameters: a record of operations, and of the documented laws that
-- the sources rely on, stands for Redis, the circuit breaker cache, the HTTP client, the
-- repositories, the JSON library, regular expressions and the hash function. Asynchronous code runs
-- one request at a time, but for the warm-ups of connections and the tool calls of a batch, which
-- end in any order, and the two branches of a `join`, which run in either order; the breaker
-- answers all questions of one preparation at one time. The breaker's entries, the fallback
-- counters and the keys in Redis expire when the sources say, but for the sorted sets of the loop
-- budget and the spendings, whose expiry takes nothing away that counts. All recursion is on lists
-- and needs no fuel. The counter of 64 bits that the budget guard keeps in the process, and the sum
-- of the token counts of a response, wrap around. Floating-point values are bit patterns that the
-- translators copy, and an interface in the burn-rate guard, the tool router and the L1 cache.
-- Texts of errors keep no interpolated values.
--
-- Not modelled: logging; the translation of stream chunks; start-up, routes and most HTTP handlers;
-- authentication; the client of the semantic cache; the configuration subscriber and the writer to
-- ClickHouse; the services for authentication and semantic search; and the tracer's queries for the
-- dashboard.
pub mod Chat
pub mod Common
pub mod Config
pub mod Errors
pub mod Geo
pub mod Guard
pub mod Json
pub mod L1Cache
pub mod Limit
pub mod Mcp
pub mod Pii
pub mod Policy
pub mod Proxy
pub mod Router
pub mod ToolCalls
pub mod ToolRouter
pub mod Tracer
