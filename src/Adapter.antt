-- ===== src/Adapter.antt =====
-- The Docker adapter: provideradapters/base.py and docker/adapter.py (packages/provider-adapters). Docker's
-- answers, the clock and fresh UUIDs are arguments. Each `unit_of_work` is one function of the tables; what
-- other workers commit before the k-th of them is an argument.
pub mod Intent
pub mod Precheck
pub mod World
pub mod Execute
mod Tests
