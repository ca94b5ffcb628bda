-- ===== src/Execution/Tests.antt =====
-- One execution, recorded and moved by two workers.
use self_healing_agent.Incident.Store.{ok}
use self_healing_agent.Prelude.{◌≤◌, [], arith, refl, ◌≡◌, ◌∷◌, some, none}
use self_healing_agent.Execution.Once.{dispatch-once, dispatches}
use self_healing_agent.Execution.Record.{
  same_execution, checked, put_key, row_of, running, matches_step, RemediationStep, NewExecution,
  put_row, record_execution, Executions,
}
use self_healing_agent.Execution.Moves.{IsStamped, stamp, Move}

abbrev request : NewExecution
request = record {
  fresh = 40;
  incident_id = 3;
  step_id = 8;
  resource_id = 9;
  idempotency_key = "plan-7:step-8:1";
  container_id = some "0123456789ab";
  uncertainty_reason = none;
}

abbrev step : RemediationStep
step = record { resource_id = 9; plan_incident_id = some 3 }

abbrev empty : Executions
empty = record { rows = λ i. none; by_key = λ k. none }

unfoldable recorded : Executions
recorded = record {
  rows = put_row 40 (row_of request) empty.rows;
  by_key = put_key "plan-7:step-8:1" 40 empty.by_key;
}

record_run : record_execution empty (some step) request ≡ ok (recorded, row_of request)
unfolding record_execution matches_step checked same_execution recorded row_of
record_run = refl

recorded-IsStamped : IsStamped recorded
unfolding recorded put_row row_of stamp
recorded-IsStamped i x here = ground (arith, here)

abbrev start : Move
start = record {
  seen = recorded;
  execution_id = 40;
  expected_version = 1;
  status = running;
  result = "dispatched";
  reason = none;
  now = 500;
}

dispatch-once_example : dispatches 40 (start ∷ start ∷ []) recorded ≤ 1
dispatch-once_example =
    dispatch-once 40 (start ∷ start ∷ []) recorded (recorded-IsStamped, (recorded-IsStamped, tt))
      recorded-IsStamped
