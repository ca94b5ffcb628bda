-- ===== src/Policy.antt =====
-- The policy engine (packages/policy-engine/policyengine): the ten safety gates that stand between
-- a remediation plan and its execution.
pub mod Schemas
pub mod Rules
pub mod Engine
pub mod Examples
mod Tests
