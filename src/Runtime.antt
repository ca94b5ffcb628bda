-- ===== src/Runtime.antt =====
-- The leases of incidents and the wake-ups of workflows: packages/agent-core/agentcore/runtime (lease.py and
-- scheduler.py) and the methods of db/repositories/control_plane.py that they call. Each statement is
-- atomic; `now()`, the clock and fresh UUIDs are arguments.
pub mod Lease
pub mod Schedule
mod Tests
