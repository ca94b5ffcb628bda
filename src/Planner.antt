-- ===== src/Planner.antt =====
-- The action catalog and the planner: packages/action-catalog/actioncatalog (registry, parameter schemas,
-- planner/validator.py, mapper.py and dry_run.py), with sharedmodels/plan.py. What pydantic reads a UUID
-- or an integer from, how a UUID is printed, and the digest of a canonical plan are arguments.
pub mod Schemas
pub mod Actions
pub mod Validator
pub mod Mapper
pub mod DryRun
mod Tests
