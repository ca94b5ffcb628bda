-- ===== src/Workflow.antt =====
-- The incident workflow of packages/agent-core/agentcore: graph/builder.py, nodes/approval.py,
-- runtime/policy.py and verification/scheduling.py. The nodes that read or write outside the graph are
-- a function that a lemma is given, with any results.
pub mod Graph
pub mod Walks
pub mod Retries
mod Tests
