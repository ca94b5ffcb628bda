-- ===== src/Nodes.antt =====
-- The nodes of packages/agent-core/agentcore/nodes that write: execution.py, verification.py, resolution.py and
-- escalation.py. Each transaction is a function of the tables; what other workers commit before the k-th is an
-- argument, as are the answers of the adapter and of the verifier.
pub mod Store
pub mod Execute
pub mod Verify
pub mod Close
pub mod Policy
mod Tests
