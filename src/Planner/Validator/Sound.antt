-- ===== src/Planner/Validator/Sound.antt =====
-- A plan that the validator takes, with the mutations told by their category and the digest by its dictionary.
use self_healing_agent.Prelude.{Option, some, All, ◌≡◌, List, [], ◌∷◌}
use self_healing_agent.Planner.Schemas.{Host, RemediationStep, RemediationPlan, TargetBinding}
use self_healing_agent.Planner.Actions.{Registry, BaseAction, get_action, workload_mutation}
use self_healing_agent.Planner.Validator.{canonical_steps, or_none}
use self_healing_agent.Planner.Validator.Safe.{IsBound, Distinct, InOrder, SameTarget}

-- The action of the step is registered as a mutation.
abbrev pub Mutates : Registry → RemediationStep → Type 0
Mutates registry s =
    (a : BaseAction) × (get_action registry s.action ≡ some a) × (a.category ≡ workload_mutation)

abbrev pub AtMostOne : (RemediationStep → Type 0) → List RemediationStep → Type 0
AtMostOne p [] = Unit
AtMostOne p (s ∷ steps) = (p s → All (λ (t : RemediationStep). p t → ⊥) steps) × AtMostOne p steps

pub record IsSound (host : Host) (registry : Registry) (plan : RemediationPlan)
    (expected : Option TargetBinding) : Type 0 where
  pub matches : (e : TargetBinding) → expected ≡ some e → SameTarget plan.target_binding e
  pub allowlisted : plan.target_binding.service_name ≡ "demo-api"
  pub bound : All (IsBound registry plan.target_binding) plan.steps
  pub distinct : Distinct plan.steps
  pub single : AtMostOne (Mutates registry) plan.steps
  pub restarts :
      All (λ (s : RemediationStep). Mutates registry s → s.action ≡ "restart_container") plan.steps
  pub ordered : All (λ (s : RemediationStep). Mutates registry s → InOrder plan.steps s) plan.steps
  pub sealed :
      host.digest (record {
        incident_id = plan.incident_id;
        diagnosis_id = plan.diagnosis_id;
        version = plan.version;
        risk = plan.risk;
        target_binding = plan.target_binding;
        steps = canonical_steps plan.steps;
        verification_profile = or_none plan.verification_profile;
      })
      ≡ plan.content_hash
