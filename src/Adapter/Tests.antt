-- ===== src/Adapter/Tests.antt =====
-- One intent, executed, interrupted and executed again; and its precheck.
use self_healing_agent.Text.{strip_start, strip_end, lower_code, is_space, strip}
use self_healing_agent.Adapter.Execute.Answers.{execute-recovers, conclude-returns, IsOpen}
use self_healing_agent.Approvals.Store.{is_of_plan, latest, Approval}
use self_healing_agent.Adapter.Execute.Once.{
  IsDispatched, execute-IsGuarded, at_claim, IsGuarded, execute-once,
}
use self_healing_agent.Adapter.Execute.Settled.{execute-settles, IsSettled}
use self_healing_agent.Adapter.Precheck.{
  lock_control, check_control, granted_approval, check_grant, get_automation_controls,
  get_latest_policy_decision, check_decision, non_empty, bound_container, check_binding, check_rows,
  label, check_labels, found, precheck, Facts,
}
use self_healing_agent.Execution.Record.{
  is_running, finish_changes, ExecutionStatus, Execution, may_become, put_key, put_row,
  commit_finish, refusal, finish_execution, row_of, same_execution, checked, matches_step,
  record_execution,
}
use self_healing_agent.Lock.Service.{
  is_disabled, holds, verify_lock, put, new_lock, upsert, check_safety, acquire_lock,
}
use self_healing_agent.Adapter.Execute.Started.{still, IsSound}
use self_healing_agent.Prelude.{
  ◌≢◌, [], str_eq, ◌∷◌, Option, if◌then◌else◌, String, true, ◌⊎◌, false, ◌+◌, arith, ℕ, refl, none,
  some, ◌≡◌,
}
use self_healing_agent.Adapter.Intent.{
  started_since, restart_count_of, reconcile, ExecutionOutcome, ExecutionOutcomeStatus,
  ContainerSnapshot, ExecutionIntent, Host,
}
use self_healing_agent.Adapter.Execute.{
  dispatching, finish_and_quarantine, conclude_uncertain, conclude, request_of, start_recorded,
  claim, claim_and_dispatch, dispatched_outcome, find_execution, early_check, execute,
}
use self_healing_agent.Adapter.World.{returned, timed_out, restarted, World, Tables}

abbrev host : Host
host = record {
  read_time = λ s. none;
  dump_snapshot = λ s. s.status;
  dump_intent = λ i. i.idempotency_key;
}

abbrev intent : ExecutionIntent
intent = record {
  incident_id = 3;
  plan_id = 7;
  plan_version = 1;
  step_id = 8;
  resource_id = 9;
  container_id = "0123456789ab";
  binding_generation = 1;
  service_name = "demo-api";
  idempotency_key = "exec:3:1:8:1";
}

abbrev snapshot_of : ℕ → ContainerSnapshot
snapshot_of count = record {
  container_id = "0123456789ab";
  status = "running";
  started_at = none;
  restart_count = count;
}

abbrev empty : Tables
empty = record { executions = record { rows = λ i. none; by_key = λ k. none }; locks = λ i. none }

abbrev world : World
world = record {
  pre_snapshot = some (snapshot_of 0);
  post_snapshot = some (snapshot_of 0);
  restart = timed_out;
  control = none;
  step = some (record { resource_id = 9; plan_incident_id = some 3 });
  actor = "agent:docker_adapter";
  token = 50;
  fresh = 40;
  fresh_token = 51;
  clock = λ k. 1000 + k;
  dispatch_time = 1002;
  others = λ k t. t;
}

-- A worker that runs the same intent with other UUIDs, and finds the restart done.
abbrev clean : World
clean = record world { restart = restarted; token = 60; fresh = 41 }

empty-IsSound : IsSound empty.executions
empty-IsSound = record {
  stamped = λ i x here. absurd (ground (arith, here));
  keyed = λ i x here. absurd (ground (arith, here));
}

-- The tables after the claim of the first call.
abbrev recorded_row : Execution
recorded_row = record {
  id = 40;
  incident_id = 3;
  step_id = 8;
  resource_id = 9;
  container_id = some "0123456789ab";
  idempotency_key = "exec:3:1:8:1";
  status = ExecutionStatus.pending;
  version = 1;
  result = none;
  uncertainty_reason = none;
  started_at = none;
  finished_at = none;
}

abbrev running_row : Execution
running_row = record recorded_row {
  status = ExecutionStatus.running;
  version = 2;
  result = some "exec:3:1:8:1";
  started_at = some 1002;
}

abbrev claimed : Tables
claimed = record {
  executions = record {
    rows = put_row 40 running_row (put_row 40 recorded_row empty.executions.rows);
    by_key = put_key "exec:3:1:8:1" 40 empty.executions.by_key;
  };
  locks = put 9 (some (new_lock "agent:docker_adapter" 50 120 1002)) empty.locks;
}

claim_run : claim host world intent empty ≡ returned (dispatching claimed 40 2)
unfolding execute early_check find_execution claim_and_dispatch claim acquire_lock check_safety
    upsert new_lock record_execution matches_step checked same_execution start_recorded row_of
    request_of finish_execution refusal commit_finish put_row put_key may_become conclude
    conclude_uncertain reconcile restart_count_of started_since finish_and_quarantine finish_changes
    is_running
claim_run = refl

timeout_asks : (execute host world intent empty).restarts ≡ 1
unfolding execute early_check find_execution claim_and_dispatch claim acquire_lock check_safety
    upsert new_lock record_execution matches_step checked same_execution start_recorded row_of
    request_of finish_execution refusal commit_finish put_row put_key may_become conclude
    conclude_uncertain reconcile restart_count_of started_since finish_and_quarantine finish_changes
    is_running
timeout_asks = refl

timeout_is_uncertain :
    (execute host world intent empty).answer
    ≡ returned (
        dispatched_outcome intent 40 ExecutionOutcomeStatus.uncertain false
          (some "Could not prove restart")
          (some "Could not prove restart"))
unfolding execute early_check find_execution claim_and_dispatch claim acquire_lock check_safety
    upsert new_lock record_execution matches_step checked same_execution start_recorded row_of
    request_of finish_execution refusal commit_finish put_row put_key may_become conclude
    conclude_uncertain reconcile restart_count_of started_since finish_and_quarantine finish_changes
    is_running
timeout_is_uncertain = refl

execute-IsGuarded_example :
    ((execute host world intent empty).restarts ≡ 0)
    ⊎ (((execute host world intent empty).restarts ≡ 1)
        × ((d : IsDispatched host world intent empty) × IsGuarded world intent
              (at_claim world empty)
              d.tables
              d.number
              d.version))
execute-IsGuarded_example = execute-IsGuarded host world intent empty empty-IsSound

execute-once_example : (execute host clean intent claimed).restarts ≡ 0
execute-once_example =
    execute-once host world clean intent intent empty claimed claimed 40 2 empty-IsSound claim_run
      still refl

execute-settles_example :
    (d : IsDispatched host world intent empty) × IsSettled intent d.number
      (execute host world intent empty).tables
      (dispatched_outcome intent 40 ExecutionOutcomeStatus.uncertain false
        (some "Could not prove restart")
        (some "Could not prove restart"))
execute-settles_example =
    execute-settles host world intent empty
      (dispatched_outcome intent 40 ExecutionOutcomeStatus.uncertain false
        (some "Could not prove restart") (some "Could not prove restart"))
      timeout_asks timeout_is_uncertain

claimed-IsOpen : IsOpen claimed.executions 40 2
unfolding put_row
claimed-IsOpen = record { row = running_row; here = refl; version = refl; status = refl }

claimed_held : verify_lock "agent:docker_adapter" 50 1003 claimed.locks 9 ≡ true
unfolding verify_lock holds put new_lock
claimed_held = refl

conclude-returns_example :
    (r : Tables × ExecutionOutcome) × (conclude host world intent 40 2 claimed ≡ returned r)
conclude-returns_example =
    conclude-returns host world intent 40 2 claimed claimed-IsOpen claimed_held
      (λ e. absurd (ground (arith, e)))

claimed_found : find_execution "exec:3:1:8:1" claimed.executions ≡ some running_row
unfolding find_execution put_row put_key
claimed_found = refl

claimed_same : same_execution running_row (request_of intent 41) ≡ true
unfolding same_execution request_of
claimed_same = refl

-- The worker that died after its claim has not restarted anything, and the next one reports success.
execute-recovers_example :
    let e = execute host clean intent claimed in
    (e.restarts ≡ 0)
    × ((outcome : ExecutionOutcome) × (y : Execution) × (e.answer ≡ returned outcome)
        × (outcome.execution_id ≡ some 40)
        × (e.tables.executions.rows 40 ≡ some y)
        × ((snapshot_of 0).status ≡ "running"
            → (outcome.status ≡ ExecutionOutcomeStatus.succeeded)
              × (y.status ≡ ExecutionStatus.succeeded))
        × ((snapshot_of 0).status ≢ "running"
            → (outcome.status ≡ ExecutionOutcomeStatus.uncertain)
              × (y.status ≡ ExecutionStatus.failed)))
    × (e.tables.locks ≡ claimed.locks)
execute-recovers_example =
    execute-recovers host clean intent claimed running_row (snapshot_of 0) claimed_found refl
      claimed_same claimed-IsOpen refl

abbrev labels : String → Option String
labels key =
    if str_eq key "self-healing.managed"
    then some " TRUE"
    else if str_eq key "com.docker.compose.service"
    then some "demo-api"
    else none

abbrev grant : Approval
grant = record {
  id = 70;
  plan_id = 7;
  plan_version = 1;
  approver_id = 2;
  decision = "APPROVE";
  rejection_reason = none;
  created_at = 500;
  expires_at = 2295;
}

abbrev facts : Facts
facts = record {
  inspection = found labels;
  resource = some (record {
    environment = "local";
    docker_container_id = some "0123456789ab";
    container_id = none;
    binding_generation = none;
  });
  decisions = record { incident_id = 3; plan_id = 7; decision = "ALLOW"; created_at = 400 } ∷ [];
  approvals = grant ∷ [];
  control = none;
  locks = λ i. none;
  now = 1000;
  snapshot = some (snapshot_of 0);
}

precheck_run :
    precheck intent facts
    ≡ (some (record { mode = "APPROVAL_REQUIRED"; emergency_stopped_resources = [] }), none)
unfolding precheck check_labels label strip is_space lower_code check_rows check_binding
    bound_container non_empty check_decision get_latest_policy_decision latest
    get_automation_controls check_grant granted_approval is_of_plan check_control check_safety
    lock_control is_disabled strip_end strip_start
precheck_run = refl
