-- ===== src/Planner/DryRun.antt =====
-- planner/dry_run.py: `DryRunExecutor`.
use self_healing_agent.Prelude.{
  ◌&&◌, is_empty, [], str_eq, some_and, ◌∷◌, false, some, String, true, none, Bool, ℕ, List, Option,
}
use self_healing_agent.Planner.Schemas.{
  medium_risk, low_risk, RiskLevel, Host, RemediationStep, RemediationPlan, Parameters, get,
}
use self_healing_agent.Planner.Actions.{text_and, Registry, get_action, ActionCategory, BaseAction}
use self_healing_agent.Planner.Validator.{validate, PlanError}
pub mod Total

-- An unknown action, or the category and the preconditions of a known one.
pub data Simulation : Type 0 where
  simulation_failed : Simulation
  simulated : ActionCategory → Bool → Simulation

pub record SimulatedStep : Type 0 where
  pub position : ℕ
  pub action : String
  pub result : Simulation

-- `policy_evaluation`, `validation_result` and the simulated steps of a `DryRunSchema`.
pub record DryRun : Type 0 where
  pub incident_id : ℕ
  pub plan_id : ℕ
  pub plan_version : ℕ
  pub content_hash : String
  pub plan_risk : RiskLevel
  pub allowed_environment : Bool
  pub risk_acceptable : Bool
  pub managed_target : Bool
  pub eligible_for_execution : Bool
  pub valid : Bool
  pub errors : List PlanError
  pub simulated_steps : List SimulatedStep

unfoldable pub is_low : RiskLevel → Bool
is_low low_risk = true
is_low _ = false

unfoldable pub is_acceptable : RiskLevel → Bool
is_acceptable low_risk = true
is_acceptable medium_risk = true
is_acceptable _ = false

-- `rules.get("allowed_environment") == "local"`, where no rules mean the default ones
unfoldable pub is_local : Parameters → Bool
is_local [] = true
is_local (r ∷ rules) =
    some_and (get (r ∷ rules) "allowed_environment") (λ v. text_and v (λ s. str_eq s "local"))

-- One step; a ValidationError of the preconditions is raised.
unfoldable pub simulate : Registry → RemediationStep → Option SimulatedStep
simulate registry step = elim (get_action registry step.action) [
  | none ↦
      some (record { position = step.position; action = step.action; result = simulation_failed })
  | some action ↦ elim (action.check_preconditions step.parameters) [
    | none ↦ none
    | some met ↦ some (record {
      position = step.position;
      action = step.action;
      result = simulated action.category met;
    })
  ]
]

unfoldable pub simulate_all : Registry → List RemediationStep → Option (List SimulatedStep)
simulate_all registry [] = some []
simulate_all registry (step ∷ steps) =
    let rest = simulate_all registry steps in
    elim (simulate registry step) [
      | none ↦ none
      | some s ↦ elim rest [ none ↦ none | some later ↦ some (s ∷ later) ]
    ]

abbrev pub dry_run_record :
    Host → Registry → RemediationPlan → Parameters → List SimulatedStep → DryRun
dry_run_record host registry plan policy_rules steps =
    let errors = validate host registry plan none true in
    record {
      incident_id = plan.incident_id;
      plan_id = plan.id;
      plan_version = plan.version;
      content_hash = plan.content_hash;
      plan_risk = plan.risk;
      allowed_environment = is_local policy_rules;
      risk_acceptable = is_acceptable plan.risk;
      managed_target = str_eq plan.target_binding.service_name "demo-api";
      eligible_for_execution = is_empty errors && is_low plan.risk;
      valid = is_empty errors;
      errors = errors;
      simulated_steps = steps;
    }

-- `execute_dry_run`; the executor's own registry is the validator's.
unfoldable pub execute_dry_run : Host → Registry → RemediationPlan → Parameters → Option DryRun
execute_dry_run host registry plan policy_rules = elim (simulate_all registry plan.steps) [
  | none ↦ none
  | some steps ↦ some (dry_run_record host registry plan policy_rules steps)
]
