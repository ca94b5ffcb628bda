-- ===== src/Planner/Mapper.antt =====
-- planner/mapper.py: `DeterministicPlanner`.
use self_healing_agent.Prelude.{
  false, true, [], none, leb, ◌∷◌, has, some, Bool, if◌then◌else◌, String, ℕ, List,
}
use self_healing_agent.Planner.Schemas.{
  low_risk, number, text, Host, RemediationStep, RemediationPlan, TargetBinding, Parameters,
}
use self_healing_agent.Planner.Actions.{default_registry}
use self_healing_agent.Planner.Validator.{validate, compute_plan_content_hash, PlanError}
use Prim.Native.String.{◌++◌ as join}
pub mod Restart
pub mod Planned

unfoldable pub is_restart_cause : String → Bool
is_restart_cause cause =
    has ("CONTAINER_STOPPED" ∷ "CPU_SATURATION" ∷ "API_UNRESPONSIVE" ∷ []) cause

abbrev pub profile_name : String
profile_name = "m1_default_restart_profile"

-- The identifiers that `uuid4()` gives: of the plan, and of the steps by position.
pub record FreshIds : Type 0 where
  pub plan : ℕ
  pub step : ℕ → ℕ

abbrev plan_step : FreshIds → TargetBinding → ℕ → String → Parameters → Parameters → RemediationStep
plan_step ids target position action parameters verification = record {
  id = ids.step position;
  plan_id = some ids.plan;
  resource_id = target.resource_id;
  position = position;
  action = action;
  action_schema_version = "1.0";
  parameters = parameters;
  verification = verification;
}

unfoldable pub restart_steps : Host → FreshIds → TargetBinding → List RemediationStep
restart_steps host ids target =
    plan_step ids target 0 "inspect_container"
      (("container_id", text target.container_id)
        ∷ ("resource_id", text (host.show_uuid target.resource_id))
        ∷ ("binding_generation", number target.binding_generation)
        ∷ [])
      []
    ∷ plan_step ids target 1 "restart_container"
        (("container_id", text target.container_id)
          ∷ ("resource_id", text (host.show_uuid target.resource_id))
          ∷ ("service_name", text target.service_name)
          ∷ ("timeout_seconds", number 30)
          ∷ ("binding_generation", number target.binding_generation)
          ∷ [])
        (("profile", text profile_name) ∷ [])
    ∷ plan_step ids target 2 "wait_for_stabilization"
        (("resource_id", text (host.show_uuid target.resource_id))
          ∷ ("duration_seconds", number 90)
          ∷ ("verification_profile", text profile_name)
          ∷ [])
        (("profile", text profile_name) ∷ [])
    ∷ []

abbrev pub concat_texts : List String → String
concat_texts [] = ""
concat_texts (s ∷ texts) = join s (concat_texts texts)

unfoldable pub escalation_steps :
    Host → FreshIds → TargetBinding → ℕ → String → List RemediationStep
escalation_steps host ids target incident cause =
    plan_step ids target 0 "notify_operator"
      (("incident_id", text (host.show_uuid incident))
        ∷ ("reason", text (concat_texts ("Escalation required for unhandled cause: " ∷ cause ∷ [])))
        ∷ ("severity", text "HIGH")
        ∷ (
          "message",
          text (
              concat_texts (
                "Autonomous remediation unavailable for root cause '" ∷ cause
                ∷ "'. Manual operator intervention is required." ∷ [])),
        )
        ∷ [])
      []
    ∷ plan_step ids target 1 "open_incident_ticket"
        (("incident_id", text (host.show_uuid incident))
          ∷ ("title", text (concat_texts ("Escalated Incident: " ∷ cause ∷ [])))
          ∷ (
            "summary",
            text (
                concat_texts (
                  "Incident "
                  ∷ host.show_uuid incident
                  ∷ " escalated due to unsupported root cause "
                  ∷ cause
                  ∷ "."
                  ∷ [])),
          )
          ∷ ("root_cause", text cause)
          ∷ (
            "escalation_reason",
            text (
                concat_texts
                  ("Root cause '" ∷ cause ∷ "' requires manual operator resolution." ∷ [])),
          )
          ∷ [])
        []
    ∷ []

-- The plan before it is validated.
unfoldable pub draft : Host → FreshIds → ℕ → ℕ → String → TargetBinding → ℕ → RemediationPlan
draft host ids incident diagnosis cause target version =
    let steps =
      if is_restart_cause cause
      then restart_steps host ids target
      else escalation_steps host ids target incident cause in
    let profile = if is_restart_cause cause then some profile_name else none in
    record {
      id = ids.plan;
      incident_id = incident;
      diagnosis_id = diagnosis;
      version = version;
      risk = low_risk;
      target_binding = target;
      steps = steps;
      verification_profile = profile;
      content_hash =
          compute_plan_content_hash host incident diagnosis version low_risk target steps profile;
      approved = false;
    }

-- A plan, the ValidationError of a version below 1, or `PlanValidationError`.
pub data PlanResult : Type 0 where
  planned : RemediationPlan → PlanResult
  schema_error : PlanResult
  rejected : List PlanError → PlanResult

-- `assert_valid`, with the plan where it returns
unfoldable pub assert_valid : RemediationPlan → List PlanError → PlanResult
assert_valid plan [] = planned plan
assert_valid plan (e ∷ errors) = rejected (e ∷ errors)

-- `create_plan`, with the default registry
unfoldable pub create_plan : Host → FreshIds → ℕ → ℕ → String → TargetBinding → ℕ → PlanResult
create_plan host ids incident diagnosis cause target version =
    let plan = draft host ids incident diagnosis cause target version in
    if leb 1 version
    then assert_valid plan (validate host (default_registry host) plan (some target) true)
    else schema_error
