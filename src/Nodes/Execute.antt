-- ===== src/Nodes/Execute.antt =====
-- `execute_node`, with a session factory; the protocol of older tests is left out.
pub mod Settled
pub mod Ends
use self_healing_agent.Execution.Record.{failed}
use self_healing_agent.Incident.Transition.{transition}
use self_healing_agent.Incident.States.{
  high, escalated, verifying, critical, planned, executing, approved, Severity, IncidentState,
}
use self_healing_agent.Prelude.{
  str_eq, find, false, true, not, String, Option, ◌+◌, if◌then◌else◌, Bool, List, ℕ, or_default,
  none, some, ◌≡◌, [], ◌∷◌,
}
use self_healing_agent.Nodes.Store.{Tables, move_where, create_attention_item}
use self_healing_agent.Approvals.Submit.{create_escalation_record}
use self_healing_agent.Adapter.Intent.{ExecutionIntent, ExecutionOutcomeStatus}
use self_healing_agent.Incident.Store.{
  ◌>>=◌, find_incident, Db, Failure, Result, ok, err, lookup_error, value_error,
}

-- The keys of a step's parameters that the node reads; `timeout_seconds` is left out.
pub record RemediationStep : Type 0 where
  pub id : ℕ
  pub action : String
  pub container_id : Option String
  pub binding_generation : Option ℕ
  pub service_name : Option String

pub record Plan : Type 0 where
  pub id : ℕ
  pub version : ℕ
  pub steps : List RemediationStep

-- The keys of the workflow's state that the node reads.
pub record ExecuteState : Type 0 where
  pub incident_id : ℕ
  pub resource_id : ℕ
  pub attempts : ℕ
  pub current_plan_id : Option ℕ
  pub target_container_id : Option String
  pub binding_generation : Option ℕ
  pub version : ℕ

-- What the node meets: plans by identifier; whether the precheck of an intent passes; what `adapter.execute` does
-- for it (`none` where it raises); how the key is printed; the clock, fresh UUIDs, and other workers.
pub record World : Type 0 where
  pub plans : ℕ → Option Plan
  pub precheck_passes : ExecutionIntent → Bool
  pub adapter_execute : ExecutionIntent → Option ExecutionOutcomeStatus
  pub print_key : ℕ → ℕ → ℕ → ℕ → String
  pub clock : ℕ → ℕ
  pub fresh : ℕ → ℕ
  pub others : ℕ → Tables → Tables

pub data ExecuteStatus : Type 0 where
  precheck_escalated executed execution_failed : ExecuteStatus

-- An exception of the repository, or of the adapter.
pub data NodeError : Type 0 where
  repository : Failure → NodeError
  adapter_error : NodeError

pub data NodeAnswer : Type 0 where
  updated : ExecuteStatus → NodeAnswer
  raised : NodeError → NodeAnswer

-- The tables, the intents that were dispatched, and the answer.
pub record Ended : Type 0 where
  pub tables : Tables
  pub dispatched : List ExecutionIntent
  pub answer : NodeAnswer

-- `next((s for s in steps if s.action == "restart_container"), None)`, or the first step
unfoldable pub target_step : List RemediationStep → Option RemediationStep
target_step steps =
    elim (find (λ (s : RemediationStep). str_eq s.action "restart_container") steps) [
      | some s ↦ some s
      | none ↦ elim steps [ [] ↦ none | s ∷ rest ↦ some s ]
    ]

unfoldable pub intent_of : World → ExecuteState → Plan → RemediationStep → ExecutionIntent
intent_of world state plan step = record {
  incident_id = state.incident_id;
  plan_id = plan.id;
  plan_version = plan.version;
  step_id = step.id;
  resource_id = state.resource_id;
  container_id = or_default step.container_id (or_default state.target_container_id "");
  binding_generation = or_default step.binding_generation (or_default state.binding_generation 1);
  service_name = or_default step.service_name "demo-api";
  idempotency_key = world.print_key state.incident_id plan.version step.id (state.attempts + 1);
}

-- Steps 1 and 2.
unfoldable pub find_intent : World → ExecuteState → Result ExecutionIntent
find_intent world state = elim state.current_plan_id [
  | none ↦ err value_error
  | some plan_id ↦ elim (world.plans plan_id) [
    | none ↦ err lookup_error
    | some plan ↦ elim (target_step plan.steps) [
      | none ↦ err value_error
      | some step ↦ ok (intent_of world state plan step)
    ]
  ]
]

-- `inc.state in {APPROVED, PLANNED}` and `inc.state == EXECUTING`
unfoldable pub is_ready : IncidentState → Bool
is_ready approved = true
is_ready planned = true
is_ready _ = false

unfoldable pub is_executing : IncidentState → Bool
is_executing executing = true
is_executing _ = false

-- The escalation record and the attention item.
unfoldable pub record_failure : World → ℕ → String → Severity → String → Db → Tables → Tables
record_failure world i root_cause severity reason control t = record {
  control = control;
  escalations = create_escalation_record (world.fresh 1) i root_cause t.escalations;
  attention = create_attention_item (world.fresh 2) i severity reason t.attention;
}

-- A transaction that ends the node: an exception leaves the tables as they were.
unfoldable pub commit : Tables → List ExecutionIntent → ExecuteStatus → Result Tables → Ended
commit t sent status (ok t') = record { tables = t'; dispatched = sent; answer = updated status }
commit t sent status (err e) = record {
  tables = t;
  dispatched = sent;
  answer = raised (repository e);
}

-- The transaction after a precheck that failed.
unfoldable pub escalate_precheck : World → ℕ → Tables → Result Tables
escalate_precheck world i t = do
  done ← move_where is_ready i escalated (world.clock 1) (world.fresh 0) t.control
  ok (record_failure world i "PRECHECK_FAILED" high "Precheck Failed" done.0 t)

-- The transaction before the dispatch.
unfoldable pub start_executing : World → ℕ → Tables → Result Tables
start_executing world i t = do
  done ← move_where is_ready i executing (world.clock 1) (world.fresh 0) t.control
  ok (record t { control = done.0 })

-- The transactions after it.
unfoldable pub start_verifying : World → ℕ → Tables → Result Tables
start_verifying world i t = do
  done ← move_where is_executing i verifying (world.clock 2) (world.fresh 0) t.control
  ok (record t { control = done.0 })

-- `transition(…, inc.version, FAILED)`, then with the version that it returned ESCALATED.
unfoldable pub fail_and_escalate : World → ℕ → Db → Result Db
fail_and_escalate world i db = elim (find_incident i db.incidents) [
  | none ↦ ok db
  | some inc ↦
      if is_executing inc.state
      then (do
        done ← transition db i inc.version IncidentState.failed (world.clock 2) (world.fresh 0)
        last ← transition done.0 i (done.1).version escalated (world.clock 2) (world.fresh 0)
        ok last.0)
      else ok db
]

unfoldable pub escalate_failure : World → ℕ → Tables → Result Tables
escalate_failure world i t = do
  control ← fail_and_escalate world i t.control
  ok (record_failure world i "EXECUTION_FAILED" critical "Execution Failed or Uncertain" control t)

unfoldable pub is_success : ExecutionOutcomeStatus → Bool
is_success ExecutionOutcomeStatus.succeeded = true
is_success _ = false

-- The dispatch and what follows.
unfoldable pub dispatch : World → ExecutionIntent → Tables → Ended
dispatch world intent t = elim (world.adapter_execute intent) [
  | none ↦ record { tables = t; dispatched = intent ∷ []; answer = raised adapter_error }
  | some status ↦
      let t2 = world.others 2 t in
      if is_success status
      then commit t2 (intent ∷ []) executed (start_verifying world intent.incident_id t2)
      else commit t2 (intent ∷ []) execution_failed (escalate_failure world intent.incident_id t2)
]

unfoldable pub execute_intent : World → ExecutionIntent → Tables → Ended
execute_intent world intent t =
    if not (world.precheck_passes intent)
    then commit t [] precheck_escalated (escalate_precheck world intent.incident_id t)
    else elim (start_executing world intent.incident_id t) [
      | err e ↦ record { tables = t; dispatched = []; answer = raised (repository e) }
      | ok t1 ↦ dispatch world intent t1
    ]

unfoldable pub execute_node : World → ExecuteState → Tables → Ended
execute_node world state t0 = elim (find_intent world state) [
  | err e ↦ record { tables = world.others 0 t0; dispatched = []; answer = raised (repository e) }
  | ok intent ↦ execute_intent world intent (world.others 1 (world.others 0 t0))
]
