-- ===== src/Planner/Validator.antt =====
-- planner/validator.py: `compute_plan_content_hash` and `PlanValidator`.
use self_healing_agent.Prelude.{
  some, length, ltb, ◌||◌, none, ◌==◌, is_empty, some_and, str_eq, any, ◌&&◌, leb, [],
  if◌then◌else◌, true, ◌∷◌, not, keep, ◌++◌, false, ℕ, Option, Bool, List, String,
}
use self_healing_agent.Planner.Schemas.{
  RiskLevel, get, is_truthy, text, Value, Host, RemediationStep, RemediationPlan, TargetBinding,
  CanonicalStep,
}
use self_healing_agent.Planner.Actions.{
  BaseAction, Registry, get_action, ActionCategory, workload_mutation,
}
pub mod Safe
pub mod Checks
pub mod Contract
pub mod Sound

-- The errors of a plan, one constructor for each text, with the position that it names.
pub data PlanError : Type 0 where
  other_resource other_container other_service other_generation : PlanError
  service_not_allowlisted : PlanError
  duplicate_position unregistered_action invalid_parameters : ℕ → PlanError
  foreign_resource foreign_container foreign_service : ℕ → PlanError
  several_mutations : PlanError
  mutation_not_allowlisted : String → PlanError
  not_inspected_before not_stabilized_after : PlanError
  hash_mismatch : PlanError

-- `if test: errors.append(error)`
unfoldable pub when : Bool → PlanError → List PlanError
when true e = e ∷ []
when false e = []

-- `str(profile) if profile else None`
unfoldable pub or_none : Option String → Option String
or_none none = none
or_none (some s) = if str_eq s "" then none else some s

unfoldable pub insert_step : CanonicalStep → List CanonicalStep → List CanonicalStep
insert_step s [] = s ∷ []
insert_step s (t ∷ steps) =
    let later = insert_step s steps in
    if leb s.position t.position then s ∷ t ∷ steps else t ∷ later

unfoldable pub canonical_step : RemediationStep → CanonicalStep
canonical_step s = record {
  position = s.position;
  action = s.action;
  resource_id = s.resource_id;
  action_schema_version = s.action_schema_version;
  parameters = s.parameters;
  verification = s.verification;
}

-- `sorted(steps, key=lambda x: x["position"])`, which is stable
unfoldable pub canonical_steps : List RemediationStep → List CanonicalStep
canonical_steps [] = []
canonical_steps (s ∷ steps) = insert_step (canonical_step s) (canonical_steps steps)

-- The digest of the canonical dictionary of a plan.
unfoldable pub compute_plan_content_hash :
    Host → ℕ → ℕ → ℕ → RiskLevel → TargetBinding → List RemediationStep → Option String → String
compute_plan_content_hash host incident diagnosis version risk target steps profile =
    host.digest (record {
      incident_id = incident;
      diagnosis_id = diagnosis;
      version = version;
      risk = risk;
      target_binding = target;
      steps = canonical_steps steps;
      verification_profile = or_none profile;
    })

-- Step 2, against the expected target.
unfoldable pub expected_errors : TargetBinding → Option TargetBinding → List PlanError
expected_errors target none = []
expected_errors target (some expected) =
    when (not (target.resource_id == expected.resource_id)) other_resource
    ++ when (not (str_eq target.container_id expected.container_id)) other_container
    ++ when (not (str_eq target.service_name expected.service_name)) other_service
    ++ when (not (target.binding_generation == expected.binding_generation)) other_generation

-- `value and value != expected`, of a parameter of a step.
unfoldable pub differs : Option Value → String → Bool
differs none expected = false
differs (some (text s)) expected = not (str_eq s "") && not (str_eq s expected)
differs (some v) expected = is_truthy v

-- The checks of one step whose action is registered.
unfoldable pub step_errors : TargetBinding → RemediationStep → BaseAction → List PlanError
step_errors target step action =
    when (not (action.validate_parameters step.parameters)) (invalid_parameters step.position)
    ++ when (not (step.resource_id == target.resource_id)) (foreign_resource step.position)
    ++ when (differs (get step.parameters "container_id") target.container_id)
        (foreign_container step.position)
    ++ when (differs (get step.parameters "service_name") target.service_name)
        (foreign_service step.position)

-- One step after its position: an action that is not registered, or else the checks.
unfoldable pub action_errors : Registry → TargetBinding → RemediationStep → List PlanError
action_errors registry target step = elim (get_action registry step.action) [
  | none ↦ unregistered_action step.position ∷ []
  | some action ↦ step_errors target step action
]

-- The loop of step 3; `seen` is `positions_seen`.
unfoldable pub steps_errors :
    Registry → TargetBinding → List ℕ → List RemediationStep → List PlanError
steps_errors registry target seen [] = []
steps_errors registry target seen (step ∷ steps) =
    when (any (λ p. p == step.position) seen) (duplicate_position step.position)
    ++ action_errors registry target step
    ++ steps_errors registry target (step.position ∷ seen) steps

unfoldable pub is_mutation : ActionCategory → Bool
is_mutation workload_mutation = true
is_mutation _ = false

-- `mutating_steps` after the loop
unfoldable pub mutating_steps : Registry → List RemediationStep → List RemediationStep
mutating_steps registry steps =
    keep (λ s. some_and (get_action registry s.action) (λ a. is_mutation a.category)) steps

-- Step 4.
unfoldable pub mutation_errors : List RemediationStep → List PlanError
mutation_errors [] = []
mutation_errors (m ∷ ms) =
    when (not (str_eq m.action "restart_container")) (mutation_not_allowlisted m.action)
    ++ mutation_errors ms

unfoldable pub steps_of : String → List RemediationStep → List RemediationStep
steps_of action steps = keep (λ s. str_eq s.action action) steps

-- Step 5.
unfoldable pub sequence_errors : List RemediationStep → List RemediationStep → List PlanError
sequence_errors steps [] = []
sequence_errors steps (m ∷ ms) =
    let inspect_steps = steps_of "inspect_container" steps in
    let stab_steps = steps_of "wait_for_stabilization" steps in
    when (is_empty inspect_steps || any (λ s. leb m.position s.position) inspect_steps)
      not_inspected_before
    ++ when (is_empty stab_steps || any (λ s. leb s.position m.position) stab_steps)
        not_stabilized_after

-- Step 6, where no error was found.
unfoldable pub hash_errors : Host → RemediationPlan → List PlanError
hash_errors host plan =
    when
      (not (
        str_eq
          (compute_plan_content_hash host plan.incident_id plan.diagnosis_id plan.version plan.risk
            plan.target_binding plan.steps plan.verification_profile)
          plan.content_hash))
      hash_mismatch

-- Steps 2 to 5.
unfoldable pub contract_errors : Registry → RemediationPlan → Option TargetBinding → List PlanError
contract_errors registry plan expected =
    let mutations = mutating_steps registry plan.steps in
    expected_errors plan.target_binding expected
    ++ when (not (str_eq plan.target_binding.service_name "demo-api")) service_not_allowlisted
    ++ steps_errors registry plan.target_binding [] plan.steps
    ++ when (ltb 1 (length mutations)) several_mutations
    ++ mutation_errors mutations
    ++ sequence_errors plan.steps mutations

-- `PlanValidator(registry).validate`, of a plan that is a `RemediationPlanSchema`
unfoldable pub validate :
    Host → Registry → RemediationPlan → Option TargetBinding → Bool → List PlanError
validate host registry plan expected verify_content_hash =
    let errors = contract_errors registry plan expected in
    if verify_content_hash && is_empty errors then hash_errors host plan else errors
