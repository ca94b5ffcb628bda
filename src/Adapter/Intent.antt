-- ===== src/Adapter/Intent.antt =====
-- What goes into and comes out of the adapter (base.py), the answers of Docker, and `reconcile`.
use self_healing_agent.Prelude.{
  ◌+◌, Bool, false, if◌then◌else◌, leb, ltb, none, Option, some, some_and, String, true, ℕ,
}

pub data ExecutionOutcomeStatus : Type 0 where
  succeeded failed uncertain : ExecutionOutcomeStatus

-- The columns that the adapter or this model reads. `started_at` is Docker's text.
pub record ContainerSnapshot : Type 0 where
  pub container_id : String
  pub status : String
  pub started_at : Option String
  pub restart_count : ℕ

pub record ExecutionIntent : Type 0 where
  pub incident_id : ℕ
  pub plan_id : ℕ
  pub plan_version : ℕ
  pub step_id : ℕ
  pub resource_id : ℕ
  pub container_id : String
  pub binding_generation : ℕ
  pub service_name : String
  pub idempotency_key : String

-- `post_state` is a dump of a snapshot or a stored result, and is left out with `duration_ms`.
pub record ExecutionOutcome : Type 0 where
  pub status : ExecutionOutcomeStatus
  pub execution_id : Option ℕ
  pub idempotency_key : String
  pub reconciled : Bool
  pub uncertainty_reason : Option String
  pub error : Option String

pub record ReconciliationOutcome : Type 0 where
  pub reconciled_success : Bool
  pub uncertain : Bool
  pub reason : String

-- Code of others: `datetime.fromisoformat` on Docker's text with its Z replaced, where that gives an aware
-- datetime, in seconds; and how pydantic writes a snapshot and an intent down.
pub record Host : Type 0 where
  pub read_time : String → Option ℕ
  pub dump_snapshot : ContainerSnapshot → String
  pub dump_intent : ExecutionIntent → String

-- `started_dt >= dispatch_time - timedelta(seconds=2)`
unfoldable pub started_since : Host → Option ℕ → Option String → Bool
started_since host (some dispatch_time) (some text) =
    some_and (host.read_time text) (λ started. leb dispatch_time (started + 2))
started_since host _ _ = false

unfoldable pub restart_count_of : Option ContainerSnapshot → ℕ
restart_count_of none = 0
restart_count_of (some snapshot) = snapshot.restart_count

abbrev recon_failed : String → ReconciliationOutcome
recon_failed text = record { reconciled_success = false; uncertain = true; reason = text }

abbrev recon_verified : String → ReconciliationOutcome
recon_verified text = record { reconciled_success = true; uncertain = false; reason = text }

-- `reconcile`, where `take_snapshot` answers `post_snapshot` or raises.
unfoldable pub reconcile :
    Host → Option ContainerSnapshot → Option ℕ → Option ContainerSnapshot → ReconciliationOutcome
reconcile host none dispatch_time pre_snapshot =
    recon_failed "Unable to query container for reconciliation"
reconcile host (some post_snapshot) dispatch_time pre_snapshot =
    if ltb (restart_count_of pre_snapshot) post_snapshot.restart_count
    then recon_verified "Container restart verified (RestartCount)"
    else if started_since host dispatch_time post_snapshot.started_at
    then recon_verified "Container restart verified (StartedAt)"
    else recon_failed "Could not prove restart"
