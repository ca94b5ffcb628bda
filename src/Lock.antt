-- ===== src/Lock.antt =====
-- The resource leases of services/resources/lock.py (apps/control-api/app). The table `resource_locks`
-- is a function of the resource's identifier, its primary key; the database's `now()` and the fresh
-- UUID of a call are arguments, as is `actor`, the service's owner name. Each upsert is one atomic
-- statement; `seen` is the table that the service's reads before it saw.
pub mod Service
pub mod Laws
pub mod Sequences
pub mod Grants
mod Tests
