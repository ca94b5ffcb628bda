-- ===== src/Adapter/Execute.antt =====
-- `DockerExecutionAdapter.execute`, one transaction after the other.
pub mod Claimed
pub mod Started
pub mod Once
pub mod Settled
pub mod Answers
use self_healing_agent.Prelude.{
  Bool, false, if◌then◌else◌, none, not, Option, some, str_eq, String, true, ℕ,
}
use self_healing_agent.Adapter.Intent.{
  ContainerSnapshot, ExecutionIntent, ExecutionOutcome, ExecutionOutcomeStatus, Host, reconcile,
}
use self_healing_agent.Execution.Record.{
  Execution, Executions, ExecutionStatus, finish_execution, NewExecution, record_execution,
  RemediationStep, same_execution,
}
use self_healing_agent.Incident.Store.{conflict_error, err, Failure, ok, Result}
use self_healing_agent.Lock.Service.{
  acquire_lock, Answer as LockAnswer, AutomationControl, granted, LockError, Locks,
  quarantine_resource, refused, release_lock,
}
use self_healing_agent.Adapter.World.{
  Tables, RestartAnswer, World, Raised, Tried, ◌>>=◌, from_repository, from_acquire, from_release,
  from_docker, Ended, returned, raised, restarted, timed_out, unreachable, not_found, other_error,
  repository, lock_service, docker_error,
}

unfoldable pub request_of : ExecutionIntent → ℕ → NewExecution
request_of intent fresh = record {
  fresh = fresh;
  incident_id = intent.incident_id;
  step_id = intent.step_id;
  resource_id = intent.resource_id;
  idempotency_key = intent.idempotency_key;
  container_id = some intent.container_id;
  uncertainty_reason = none;
}

-- `select(Execution).where(Execution.idempotency_key == …)`
unfoldable pub find_execution : String → Executions → Option Execution
find_execution key db = elim (db.by_key key) [ none ↦ none | some i ↦ db.rows i ]

unfoldable pub is_succeeded : ExecutionStatus → Bool
is_succeeded ExecutionStatus.succeeded = true
is_succeeded _ = false

-- The outcome of an execution that is already finished.
unfoldable pub reuse : ExecutionIntent → Execution → ExecutionOutcome
reuse intent x = record {
  status =
      if is_succeeded x.status
      then ExecutionOutcomeStatus.succeeded
      else ExecutionOutcomeStatus.failed;
  execution_id = some x.id;
  idempotency_key = intent.idempotency_key;
  reconciled = false;
  uncertainty_reason = x.uncertainty_reason;
  error = none;
}

-- `post_snapshot.status == "running"`
unfoldable pub seen_running : ContainerSnapshot → Bool
seen_running snapshot = str_eq snapshot.status "running"

abbrev pub crash_reason : String
crash_reason = "Container not running after execution crash recovery"

unfoldable pub recovered : ExecutionIntent → Execution → ContainerSnapshot → ExecutionOutcome
recovered intent x snapshot = record {
  status =
      if seen_running snapshot
      then ExecutionOutcomeStatus.succeeded
      else ExecutionOutcomeStatus.uncertain;
  execution_id = some x.id;
  idempotency_key = intent.idempotency_key;
  reconciled = false;
  uncertainty_reason = if seen_running snapshot then none else some crash_reason;
  error = none;
}

-- A RUNNING execution of a prior attempt is finished by the look of the container: the two blocks of
-- lines that reconcile one.
unfoldable pub recover :
    Host
    → World
    → ExecutionIntent
    → Execution
    → ℕ
    → Executions
    → Tried (Executions × ExecutionOutcome)
recover host world intent x now db = do
  snapshot ← from_docker world.post_snapshot
  done ← from_repository (
      finish_execution db db x.id x.version
        (if seen_running snapshot then ExecutionStatus.succeeded else ExecutionStatus.failed)
        (host.dump_snapshot snapshot) (if seen_running snapshot then none else some crash_reason)
        now)
  returned (done.0, recovered intent x snapshot)

-- The first check, step 0: it ends the call, with the tables that it leaves, or finds no execution that
-- has started. Its lookup and the write of a recovery are two transactions, 0 and 1.
pub data Checked : Type 0 where
  answered : Tables → ExecutionOutcome → Checked
  not_started : Checked

unfoldable pub settle_existing : Host → World → ExecutionIntent → Tables → Execution → Tried Checked
settle_existing host world intent t x = elim x.status [
  | ExecutionStatus.succeeded ↦ returned (answered t (reuse intent x))
  | ExecutionStatus.failed ↦ returned (answered t (reuse intent x))
  | ExecutionStatus.running ↦ do
    done ← recover host world intent x (world.clock 1) (world.others 1 t).executions
    returned (answered (record (world.others 1 t) { executions = done.0 }) done.1)
  | _ ↦ returned not_started
]

unfoldable pub early_check : Host → World → ExecutionIntent → Tables → Tried Checked
early_check host world intent t = elim (find_execution intent.idempotency_key t.executions) [
  | none ↦ returned not_started
  | some x ↦
      if not (same_execution x (request_of intent world.fresh))
      then raised (repository conflict_error)
      else settle_existing host world intent t x
]

-- What the claiming transaction, steps 1 and 2, leads to: the answer of an execution that has started
-- already, or the dispatch of this one under its number and version.
pub data Claim : Type 0 where
  already : Tables → ExecutionOutcome → Claim
  dispatching : Tables → ℕ → ℕ → Claim

unfoldable pub start_recorded :
    Host → World → ExecutionIntent → Locks → Executions → Execution → Tried Claim
start_recorded host world intent locks db x = elim x.status [
  | ExecutionStatus.succeeded ↦
      returned (already (record { executions = db; locks = locks }) (reuse intent x))
  | ExecutionStatus.failed ↦
      returned (already (record { executions = db; locks = locks }) (reuse intent x))
  | ExecutionStatus.running ↦ do
    done ← recover host world intent x (world.clock 2) db
    returned (already (record { executions = done.0; locks = locks }) done.1)
  | _ ↦ do
    done ← from_repository (
        finish_execution db db x.id x.version ExecutionStatus.running (host.dump_intent intent) none
          (world.clock 2))
    returned (dispatching (record { executions = done.0; locks = locks }) x.id (done.1).version)
]

-- An exception rolls all of it back.
unfoldable pub claim : Host → World → ExecutionIntent → Tables → Tried Claim
claim host world intent t = do
  locks ← from_acquire (
      acquire_lock world.actor world.token 120 (world.clock 2) world.control t.locks t.locks
        intent.resource_id)
  recorded ←
      from_repository (record_execution t.executions world.step (request_of intent world.fresh))
  start_recorded host world intent locks recorded.0 recorded.1

unfoldable pub quarantine_reason : String
quarantine_reason = "Uncertain execution outcome"

-- The transactions that end a dispatch: the execution is finished, and the lock released or the resource
-- quarantined.
unfoldable pub finish_and_release :
    World
    → ExecutionIntent
    → ℕ
    → ℕ
    → ExecutionStatus
    → String
    → Option String
    → Tables
    → Tried Tables
finish_and_release world intent i v status result reason t = do
  done ←
      from_repository
        (finish_execution t.executions t.executions i v status result reason (world.clock 3))
  locks ← from_release (
      release_lock world.actor world.token world.fresh_token (world.clock 3) t.locks
        intent.resource_id)
  returned (record { executions = done.0; locks = locks })

unfoldable pub finish_and_quarantine :
    World → ExecutionIntent → ℕ → ℕ → String → Tables → Tried Tables
finish_and_quarantine world intent i v reason t = do
  done ← from_repository (
      finish_execution t.executions t.executions i v ExecutionStatus.failed "uncertain"
        (some reason) (world.clock 3))
  returned (record {
    executions = done.0;
    locks =
        quarantine_resource quarantine_reason world.fresh_token (world.clock 3) t.locks
          intent.resource_id;
  })

abbrev pub dispatched_outcome :
    ExecutionIntent
    → ℕ
    → ExecutionOutcomeStatus
    → Bool
    → Option String
    → Option String
    → ExecutionOutcome
dispatched_outcome intent i status reconciled uncertainty_reason error = record {
  status = status;
  execution_id = some i;
  idempotency_key = intent.idempotency_key;
  reconciled = reconciled;
  uncertainty_reason = uncertainty_reason;
  error = error;
}

-- Steps 3 to 5, after the restart was asked for: the tables that are committed and the outcome.
unfoldable pub conclude_uncertain :
    Host → World → ExecutionIntent → ℕ → ℕ → Tables → Tried (Tables × ExecutionOutcome)
conclude_uncertain host world intent i v t =
    let recon = reconcile host world.post_snapshot (some world.dispatch_time) world.pre_snapshot in
    if recon.reconciled_success
    then (do
      t' ← finish_and_release world intent i v ExecutionStatus.succeeded "reconciled" none t
      returned (t', dispatched_outcome intent i ExecutionOutcomeStatus.succeeded true none none))
    else do
      t' ← finish_and_quarantine world intent i v recon.reason t
      returned (
        t',
        dispatched_outcome intent i ExecutionOutcomeStatus.uncertain false (some recon.reason)
            (some recon.reason),
      )

unfoldable pub conclude :
    Host → World → ExecutionIntent → ℕ → ℕ → Tables → Tried (Tables × ExecutionOutcome)
conclude host world intent i v t = elim world.restart [
  | restarted ↦ do
    snapshot ← from_docker world.post_snapshot
    t' ←
        finish_and_release world intent i v ExecutionStatus.succeeded (host.dump_snapshot snapshot)
          none t
    returned (t', dispatched_outcome intent i ExecutionOutcomeStatus.succeeded false none none)
  | not_found ↦ do
    t' ←
        finish_and_release world intent i v ExecutionStatus.failed "error"
          (some "Container disappeared") t
    returned (
      t',
      dispatched_outcome intent i ExecutionOutcomeStatus.failed false none
          (some "Container disappeared"),
    )
  | _ ↦ conclude_uncertain host world intent i v t
]

-- A call that ends in one of its transactions: an exception leaves the tables as they were before it.
abbrev pub ended : Tables → ℕ → Tried (Tables × ExecutionOutcome) → Ended
ended t n (returned (t', outcome)) = record { tables = t'; restarts = n; answer = returned outcome }
ended t n (raised e) = record { tables = t; restarts = n; answer = raised e }

-- `execute`, from its claim on; the lock of the process around it is left out.
unfoldable pub claim_and_dispatch : Host → World → ExecutionIntent → Tables → Ended
claim_and_dispatch host world intent t = elim (claim host world intent t) [
  | raised e ↦ ended t 0 (raised e)
  | returned (already t' outcome) ↦ ended t' 0 (returned (t', outcome))
  | returned (dispatching t' i v) ↦
      let t3 = world.others 3 t' in ended t3 1 (conclude host world intent i v t3)
]

unfoldable pub execute : Host → World → ExecutionIntent → Tables → Ended
execute host world intent t0 =
    let t = world.others 0 t0 in
    elim (early_check host world intent t) [
      | raised e ↦ ended t 0 (raised e)
      | returned (answered t' outcome) ↦ ended t' 0 (returned (t', outcome))
      | returned not_started ↦ elim world.pre_snapshot [
        | none ↦ ended t 0 (raised docker_error)
        | some snapshot ↦ claim_and_dispatch host world intent (world.others 2 t)
      ]
    ]
