-- ===== src/Events.antt =====
-- Events on their way in and out of apps/control-api/app: the deduplicating insert and the outbox of
-- db/repositories/control_plane.py, services/outbox/service.py and workers/incidentpublisher.py. The rows of
-- the outbox stand in the order of `created_at`.
pub mod Outbox
pub mod Store
mod Tests
