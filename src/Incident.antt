-- ===== src/Incident.antt =====
-- The incident lifecycle: domain/incidents/state_machine.py and the incident methods of
-- db/repositories/control_plane.py (apps/control-api/app). A row set is a list in insertion order,
-- keyed by `id`. Each transaction is a function of the store that it commits to; where a method reads
-- first and writes later, the store that it read is an argument of its own, so that what other workers
-- commit in between is any difference of the two. UUIDs and times are numbers; a fresh UUID and the
-- database's `now()` are arguments.
pub mod States
pub mod Store
pub mod Creation
pub mod Transition
mod Tests
