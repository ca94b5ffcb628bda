-- ===== src/Approvals.antt =====
-- Approvals of plans: `submit_approval` of api/approvals.py and `record_approval` of
-- db/repositories/control_plane.py (apps/control-api/app), and approvals/manager.py
-- (packages/policy-engine/policyengine). Times are seconds.
pub mod Store
pub mod Latest
pub mod Submit
pub mod Manager
mod Tests
