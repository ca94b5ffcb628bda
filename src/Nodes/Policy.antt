-- ===== src/Nodes/Policy.antt =====
-- The persistence of `evaluate_policy_node`, for a decision of the engine.
pub mod Ends
use self_healing_agent.Approvals.Submit.{create_escalation_record}
use self_healing_agent.Incident.States.{pending_approval, escalated, is_planned}
use self_healing_agent.Prelude.{
  if◌then◌else◌, Bool, String, List, ℕ, none, some, ◌≡◌, [], ◌∷◌, ◌++◌,
}
use self_healing_agent.Adapter.Precheck.{PolicyDecision}
use self_healing_agent.Nodes.Store.{Tables, move_where}
use self_healing_agent.Incident.Store.{Incident, find_incident, Db, ◌>>=◌, Failure, Result, ok, err}
use self_healing_agent.Incident.Transition.{require_incident_approval, transition}
use self_healing_agent.Policy.Schemas.{defer, deny, allow, require_approval, PolicyDecisionOutcome}

pub record PolicyTables : Type 0 where
  pub tables : Tables
  pub decisions : List PolicyDecision

-- AttributeError, of the call of `schedule_workflow`, which the repository does not define; and what the
-- repository raises.
pub data PolicyError : Type 0 where
  attribute_error : PolicyError
  repository : Failure → PolicyError

-- What the engine decided, whether its decision names a time to wait for, and what the node writes with it.
pub record PolicyInput : Type 0 where
  pub incident_id : ℕ
  pub plan_id : ℕ
  pub outcome : PolicyDecisionOutcome
  pub has_defer_until : Bool
  pub root_cause : String
  pub now : ℕ
  pub fresh : ℕ → ℕ

-- `decision.decision.value`
unfoldable pub outcome_value : PolicyDecisionOutcome → String
outcome_value allow = "ALLOW"
outcome_value deny = "DENY"
outcome_value require_approval = "REQUIRE_APPROVAL"
outcome_value defer = "DEFER"

-- `record_policy_decision`, with the columns that are read again.
unfoldable pub record_policy_decision : PolicyInput → List PolicyDecision → List PolicyDecision
record_policy_decision input rows =
    rows
    ++ record {
      incident_id = input.incident_id;
      plan_id = input.plan_id;
      decision = outcome_value input.outcome;
      created_at = input.now;
    }
      ∷ []

-- `if not inc.approval_required: inc = await repo.require_incident_approval(…)`
unfoldable pub ensure_required : PolicyInput → Db → Incident → Result (Db × Incident)
ensure_required input db inc =
    if inc.approval_required
    then ok (db, inc)
    else require_incident_approval db input.incident_id inc.version

unfoldable pub ask_approval : PolicyInput → Db → Result Db
ask_approval input db = elim (find_incident input.incident_id db.incidents) [
  | none ↦ ok db
  | some inc ↦
      if is_planned inc.state
      then (do
        asked ← ensure_required input db inc
        done ←
            transition asked.0 input.incident_id (asked.1).version pending_approval input.now
              (input.fresh 0)
        ok done.0)
      else ok db
]

unfoldable pub deny_plan : PolicyInput → Tables → Result Tables
deny_plan input t = do
  done ← move_where is_planned input.incident_id escalated input.now (input.fresh 0) t.control
  ok (record t {
    control = done.0;
    escalations =
        create_escalation_record (input.fresh 1) input.incident_id input.root_cause t.escalations;
  })

pub data Persisted : Type 0 where
  persisted : PolicyTables → Persisted
  raised : PolicyError → Persisted

unfoldable pub from_result : PolicyTables → Result Tables → Persisted
from_result t (ok tables) = persisted (record t { tables = tables })
from_result t (err e) = raised (repository e)

unfoldable pub with_control : Tables → Result Db → Result Tables
with_control t (ok db) = ok (record t { control = db })
with_control t (err e) = err e

-- The transaction that persists a decision; where it raises, the tables stay as they were.
unfoldable pub persist_decision : PolicyInput → PolicyTables → Persisted
persist_decision input t0 =
    let t = record t0 { decisions = record_policy_decision input t0.decisions } in
    elim input.outcome [
      | require_approval ↦
          from_result t (with_control t.tables (ask_approval input (t.tables).control))
      | deny ↦ from_result t (deny_plan input t.tables)
      | defer ↦ if input.has_defer_until then raised attribute_error else persisted t
      | allow ↦ persisted t
    ]
