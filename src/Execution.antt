-- ===== src/Execution.antt =====
-- The execution records of db/repositories/control_plane.py (apps/control-api/app): `record_execution` and
-- `finish_execution`. The table is a function of the primary key, with its unique index on
-- `idempotency_key`; `seen` is the table at a method's read, where the write comes later.
pub mod Record
pub mod Idempotent
pub mod Moves
pub mod Once
mod Tests
