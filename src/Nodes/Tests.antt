-- ===== src/Nodes/Tests.antt =====
-- One incident through the nodes: judged, executed, verified and closed.
use self_healing_agent.Nodes.Policy.Ends.{decision_row, persist_decision-ends, IsDecidedAt}
use self_healing_agent.Policy.Schemas.{defer, deny, allow, require_approval}
use self_healing_agent.Incident.States.{pending_approval, escalated, high, planned, verifying}
use self_healing_agent.Verify.Verdict.{agent_healed, verification_failed, VerificationVerdict}
use self_healing_agent.Incident.Store.{Db, ok, Incident, find_incident}
use self_healing_agent.Adapter.Intent.{ExecutionOutcomeStatus, ExecutionIntent}
use self_healing_agent.Nodes.Execute.Ends.{execute_node-guarded}
use self_healing_agent.Nodes.Policy.{
  attribute_error, raised, persisted, persist_decision, PolicyTables, PolicyInput,
}
use self_healing_agent.Nodes.Verify.{VerifyTables, VerifyInput}
use self_healing_agent.Prelude.{
  length, if◌then◌else◌, ◌+◌, ◌⊎◌, refl, none, some, ◌≡◌, [], ◌∷◌, false, true,
}
use self_healing_agent.Nodes.Store.{move_where, Tables}
use self_healing_agent.Nodes.Execute.{
  is_executing, is_success, start_verifying, commit, dispatch, start_executing, intent_of,
  target_step, execute_intent, is_ready, find_intent, RemediationStep, execute_node, World,
  ExecuteState,
}

abbrev ready : Incident
ready = record {
  id = 3;
  resource_id = 9;
  correlation_key = "demo-api:down";
  state = planned;
  severity = high;
  version = 4;
  attempts = 0;
  retry_limit = 2;
  approval_required = false;
  updated_at = 100;
  resolved_at = none;
}

abbrev tables_of : Incident → Tables
tables_of x = record {
  control = record { incidents = x ∷ []; outbox = [] };
  escalations = [];
  attention = [];
}

abbrev inspect : RemediationStep
inspect = record {
  id = 11;
  action = "inspect_container";
  container_id = none;
  binding_generation = none;
  service_name = none;
}

abbrev restart : RemediationStep
restart = record inspect {
  id = 12;
  action = "restart_container";
  container_id = some "0123456789ab";
  binding_generation = some 2;
}

abbrev world : World
world = record {
  plans = λ i. some (record { id = 7; version = 1; steps = inspect ∷ restart ∷ [] });
  precheck_passes = λ i. true;
  adapter_execute = λ i. some ExecutionOutcomeStatus.succeeded;
  print_key = λ a b c d. "exec:3:1:12:1";
  clock = λ k. 200 + k;
  fresh = λ k. 50 + k;
  others = λ k t. t;
}

abbrev state : ExecuteState
state = record {
  incident_id = 3;
  resource_id = 9;
  attempts = 0;
  current_plan_id = some 7;
  target_container_id = none;
  binding_generation = none;
  version = 4;
}

abbrev intent : ExecutionIntent
intent = record {
  incident_id = 3;
  plan_id = 7;
  plan_version = 1;
  step_id = 12;
  resource_id = 9;
  container_id = "0123456789ab";
  binding_generation = 2;
  service_name = "demo-api";
  idempotency_key = "exec:3:1:12:1";
}

ready_found : find_incident 3 (tables_of ready).control.incidents ≡ some ready
unfolding find_incident
ready_found = refl

execute_node-guarded_example :
    ((execute_node world state (tables_of ready)).dispatched ≡ [])
    ⊎ ((i : ExecutionIntent) × (find_intent world state ≡ ok i)
        × ((execute_node world state (tables_of ready)).dispatched ≡ i ∷ [])
        × (world.precheck_passes i ≡ true)
        × ((x : Incident)
            → find_incident i.incident_id (tables_of ready).control.incidents ≡ some x
            → x.state ≡ planned
            → x.approval_required ≡ false))
execute_node-guarded_example = execute_node-guarded world state (tables_of ready)

-- An incident that somebody has escalated since the plan was made is restarted all the same.
escalated_is_dispatched :
    (execute_node world state (tables_of (record ready { state = escalated }))).dispatched
    ≡ intent ∷ []
unfolding execute_node execute_intent find_intent target_step intent_of start_executing move_where
    find_incident is_ready dispatch commit start_verifying is_success is_executing
escalated_is_dispatched = refl

abbrev verifying_row : Incident
verifying_row = record ready { state = verifying; version = 6 }

abbrev input : VerifyInput
input = record {
  incident_id = 3;
  execution_id = 40;
  version = 6;
  attempts = 0;
  retry_limit = 2;
  cooldown_seconds = 600;
  now = 900;
  fresh = λ k. 80 + k;
  others = λ rows. rows;
}

abbrev verdict : VerificationVerdict
verdict = record {
  passed = false;
  status = verification_failed;
  attribution = agent_healed;
  window_start = 800;
  window_end = 890;
  total_evaluations = 3;
  consecutive_healthy_evaluations = 0;
  elapsed_healthy_seconds = 0;
  warm_up_duration_seconds = none;
  stabilization_resets = 1;
  samples = [];
}

abbrev before : VerifyTables
before = record { tables = tables_of verifying_row; results = []; schedules = [] }

abbrev decision : PolicyInput
decision = record {
  incident_id = 3;
  plan_id = 7;
  outcome = require_approval;
  has_defer_until = false;
  root_cause = "CONTAINER_STOPPED";
  now = 150;
  fresh = λ k. 90 + k;
}

abbrev undecided : PolicyTables
undecided = record { tables = tables_of ready; decisions = [] }

persist_decision-ends_example :
    (require_approval ≡ allow
      → persist_decision decision undecided
        ≡ persisted (record undecided { decisions = decision_row decision "ALLOW" ∷ [] }))
    × (require_approval ≡ require_approval
        → (db : Db) × (persist_decision decision undecided
            ≡ persisted (record undecided {
              tables = record (tables_of ready) { control = db };
              decisions = decision_row decision "REQUIRE_APPROVAL" ∷ [];
            }))
          × IsDecidedAt db 3 pending_approval (4 + (if false then 1 else 2)))
    × (require_approval ≡ deny
        → (tables : Tables) × (persist_decision decision undecided
            ≡ persisted (record undecided {
              tables = tables;
              decisions = decision_row decision "DENY" ∷ [];
            }))
          × IsDecidedAt tables.control 3 escalated (4 + 1)
          × (length tables.escalations ≡ 0 + 1))
    × (require_approval ≡ defer
        → false ≡ true
        → persist_decision decision undecided ≡ raised attribute_error)
persist_decision-ends_example = persist_decision-ends decision undecided ready ready_found refl
