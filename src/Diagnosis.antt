-- ===== src/Diagnosis.antt =====
-- The deterministic diagnosis: packages/diagnosis/diagnosis (schemas.py and deterministic/), with
-- sharedmodels/diagnosis.py. Ratios, confidences and metric values are ten-thousandths, ages are
-- milliseconds; `reasoning`, `actor` and the fresh identifiers are left out.
pub mod Schemas
pub mod Rules
pub mod Engine
mod Tests
