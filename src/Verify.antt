-- ===== src/Verify.antt =====
-- The independent verifier: packages/agent-core/agentcore/verification. What the probes of one evaluation
-- return (HTTP answers, container state, query results) and the clock are a `World`, a parameter.
pub mod Metrics
pub mod Sample
pub mod Thresholds
pub mod Passing
pub mod Contract
pub mod Session
pub mod Verdict
pub mod Streaks
pub mod Recovery
pub mod Healthy
mod Tests
