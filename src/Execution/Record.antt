-- ===== src/Execution/Record.antt =====
-- Recording an execution under an idempotency key, and moving its status.
use self_healing_agent.Prelude.{
  is_some, ◌+◌, ◌&&◌, false, ◌==◌, some, str_eq, not, true, some_and, String, none, Option, ℕ,
  if◌then◌else◌, Bool,
}
use self_healing_agent.Incident.Store.{Failure, Result, ok, err, value_error, conflict_error}

pub data ExecutionStatus : Type 0 where
  pending running succeeded failed rolledback : ExecutionStatus

-- The columns that the two methods compare or set; `plan_id`, `attempt_number`, `binding_generation`,
-- `lock_token`, `actor` and `pre_state` are only stored.
pub record Execution : Type 0 where
  pub id : ℕ
  pub incident_id : ℕ
  pub step_id : ℕ
  pub resource_id : ℕ
  pub container_id : Option String
  pub idempotency_key : String
  pub status : ExecutionStatus
  pub version : ℕ
  pub result : Option String
  pub uncertainty_reason : Option String
  pub started_at : Option ℕ
  pub finished_at : Option ℕ

-- The rows of remediation_steps and remediation_plans, as far as they are read.
pub record RemediationStep : Type 0 where
  pub resource_id : ℕ
  pub plan_incident_id : Option ℕ

pub record Executions : Type 0 where
  pub rows : ℕ → Option Execution
  pub by_key : String → Option ℕ

-- The arguments of `record_execution`, with the fresh UUID.
pub record NewExecution : Type 0 where
  pub fresh : ℕ
  pub incident_id : ℕ
  pub step_id : ℕ
  pub resource_id : ℕ
  pub idempotency_key : String
  pub container_id : Option String
  pub uncertainty_reason : Option String

unfoldable pub put_row : ℕ → Execution → (ℕ → Option Execution) → ℕ → Option Execution
put_row i x rows j = if j == i then some x else rows j

unfoldable pub put_key : String → ℕ → (String → Option ℕ) → String → Option ℕ
put_key k i keys j = if str_eq j k then some i else keys j

-- The first guard: the step belongs to a plan of the incident, and to the resource.
unfoldable pub matches_step : Option RemediationStep → NewExecution → Bool
matches_step step new = some_and step (λ s.
    some_and s.plan_incident_id (λ i. i == new.incident_id) && s.resource_id == new.resource_id)

unfoldable pub row_of : NewExecution → Execution
row_of new = record {
  id = new.fresh;
  incident_id = new.incident_id;
  step_id = new.step_id;
  resource_id = new.resource_id;
  container_id = new.container_id;
  idempotency_key = new.idempotency_key;
  status = pending;
  version = 1;
  result = none;
  uncertainty_reason = new.uncertainty_reason;
  started_at = none;
  finished_at = none;
}

-- The last guard: the row under the key is the same execution.
unfoldable pub same_execution : Execution → NewExecution → Bool
same_execution x new =
    x.incident_id == new.incident_id
    && x.step_id == new.step_id
    && x.resource_id == new.resource_id
    && not
        (some_and new.container_id (λ wanted. some_and x.container_id (λ c. not (str_eq c wanted))))

unfoldable pub checked : Executions → Execution → NewExecution → Result (Executions × Execution)
checked db x new = if same_execution x new then ok (db, x) else err conflict_error

-- `record_execution`. The row that the index names is always there; where it is not, the method raises
-- RuntimeError, which stands here as `conflict_error` too.
unfoldable pub record_execution :
    Executions → Option RemediationStep → NewExecution → Result (Executions × Execution)
record_execution db step new =
    if not (matches_step step new) then err value_error else elim (db.by_key new.idempotency_key) [
      | none ↦
          checked
            (record {
              rows = put_row new.fresh (row_of new) db.rows;
              by_key = put_key new.idempotency_key new.fresh db.by_key;
            })
            (row_of new) new
      | some i ↦ elim (db.rows i) [ none ↦ err conflict_error | some x ↦ checked db x new ]
    ]

-- `allowed`
unfoldable pub may_become : ExecutionStatus → ExecutionStatus → Bool
may_become pending running = true
may_become running succeeded = true
may_become running failed = true
may_become failed rolledback = true
may_become _ _ = false

unfoldable pub is_running : ExecutionStatus → Bool
is_running running = true
is_running _ = false

unfoldable pub finish_changes :
    ℕ → ExecutionStatus → String → Option String → ℕ → Execution → Execution
finish_changes v status result reason now x = record x {
  status = status;
  result = some result;
  version = v + 1;
  uncertainty_reason = if is_some reason then reason else x.uncertainty_reason;
  started_at = if is_running status then some now else x.started_at;
  finished_at = if is_running status then x.finished_at else some now;
}

-- The error that the guards of `finish_execution` raise, on the row that it read.
unfoldable pub refusal : Option Execution → ℕ → ExecutionStatus → Option Failure
refusal none v status = some conflict_error
refusal (some x) v status =
    if not (x.version == v)
    then some conflict_error
    else if not (may_become x.status status)
    then some value_error
    else none

-- Its conditional update.
unfoldable pub commit_finish :
    Executions → ℕ → ℕ → (Execution → Execution) → Result (Executions × Execution)
commit_finish db i v change = elim (db.rows i) [
  | none ↦ err conflict_error
  | some x ↦
      if x.version == v
      then ok (record db { rows = put_row i (change x) db.rows }, change x)
      else err conflict_error
]

-- `finish_execution`
unfoldable pub finish_execution :
    Executions
    → Executions
    → ℕ
    → ℕ
    → ExecutionStatus
    → String
    → Option String
    → ℕ
    → Result (Executions × Execution)
finish_execution seen db i v status result reason now = elim (refusal (seen.rows i) v status) [
  | some e ↦ err e
  | none ↦ commit_finish db i v (finish_changes v status result reason now)
]
