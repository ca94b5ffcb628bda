-- ===== src/Planner/Mapper/Planned.antt =====
-- What validated and planned restarts are good for.
use self_healing_agent.Prelude.{
  inr, str_eq→eq, inl, str_eq, Bool-cases, ap, ◌∙◌, subst, sym, List, refl, All, [], arith,
  some_and-true, ◌↔◌, ◌≤◌, String, ◌≡◌, true, ℕ, some,
}
use self_healing_agent.Planner.Schemas.{
  null, number, other, other, Value, text, is_truthy, Host, RemediationStep, RemediationPlan,
  TargetBinding, Parameters, get,
}
use self_healing_agent.Planner.Actions.{
  BaseAction, get_action, restart_container_action, within, is_container_id, text_and,
  container_id_field, restart_container_params, model_validate, default_registry,
}
use self_healing_agent.Planner.Validator.{PlanError, validate}
use self_healing_agent.Planner.Validator.Safe.{Names, IsSafe, IsBound}
use self_healing_agent.Planner.Validator.Contract.{validate-nil_iff}
use self_healing_agent.Planner.Mapper.{
  number, ◌∷◌, planned, is_restart_cause, FreshIds, create_plan, draft, assert_valid,
}
use self_healing_agent.Planner.Mapper.Restart.{
  IsFaithful, IsBinding, restart-IsSafe, draft-restart, restart_plan, restart_registered,
}

id_truthy : (v : Value) → text_and v is_container_id ≡ true → is_truthy v ≡ true
unfolding text_and is_container_id is_truthy within
id_truthy (text s) h = elim (Bool-cases (str_eq s "")) [
  | inl nil ↦
      let bare = subst (λ x. is_container_id x ≡ true) (str_eq→eq s "" nil) h in
      absurd (ground (arith, bare))
  | inr full ↦ ground (arith, full)
]
id_truthy (number n) h = absurd (ground (arith, h))
id_truthy null h = absurd (ground (arith, h))
id_truthy (other b) h = absurd (ground (arith, h))

container_given :
    (host : Host) (params : Parameters) (expected : String)
    → model_validate (restart_container_params host) params ≡ true
    → Names params "container_id" expected
    → get params "container_id" ≡ some (text expected)
unfolding model_validate restart_container_params container_id_field text_and is_truthy
    is_container_id within
container_given host params expected valid named =
    let (v, here, ok) =
      some_and-true (get params "container_id") (λ v. text_and v is_container_id)
        (ground (arith, valid)) in
    here ∙ ap some (named v here (id_truthy v ok))

container_of_step :
    (host : Host) (target : TargetBinding) (s : RemediationStep)
    → IsBound (default_registry host) target s
    → s.action ≡ "restart_container"
    → get s.parameters "container_id" ≡ some (text target.container_id)
unfolding restart_container_action
container_of_step host target s b e =
    let there : get_action (default_registry host) s.action ≡ some (restart_container_action host) =
      subst (λ x. get_action (default_registry host) x ≡ some (restart_container_action host))
        (sym e) (restart_registered host) in
    let registered = b.registered in
    let same : b.action ≡ restart_container_action host = ground (arith, there, registered) in
    let valid =
      subst (λ (a : BaseAction). a.validate_parameters s.parameters ≡ true) same b.parameters in
    container_given host s.parameters target.container_id valid b.container

container_of_steps :
    (host : Host) (target : TargetBinding) (id : String) (steps : List RemediationStep)
    → target.container_id ≡ id
    → All (IsBound (default_registry host) target) steps
    → All
        (λ (s : RemediationStep).
          s.action ≡ "restart_container" → get s.parameters "container_id" ≡ some (text id))
        steps
container_of_steps host target id [] same bound = tt
container_of_steps host target id (s ∷ steps) same (b, bound) = (
  (λ e. container_of_step host target s b e ∙ ap (λ x. some (text x)) same),
  container_of_steps host target id steps same bound,
)

assert_planned :
    (plan p : RemediationPlan) (errors : List PlanError)
    → assert_valid plan errors ≡ planned p
    → (errors ≡ []) × (plan ≡ p)
unfolding assert_valid
assert_planned plan p [] h = (refl, ground (arith, h))
assert_planned plan p (e ∷ errors) h = absurd (ground (arith, h))

-- Every restart step of a plan in which the validator finds no error, against an expected target, names
-- the container of that target.
pub validate-container :
    (host : Host) (plan : RemediationPlan) (expected : TargetBinding)
    → validate host (default_registry host) plan (some expected) true ≡ []
    → All
        (λ (s : RemediationStep).
          s.action ≡ "restart_container"
          → get s.parameters "container_id" ≡ some (text expected.container_id))
        plan.steps
validate-container host plan expected h =
    let safe = (validate-nil_iff host (default_registry host) plan (some expected)).0 h in
    let (resource, container, service, generation) = safe.matches expected refl in
    container_of_steps host plan.target_binding expected.container_id plan.steps container
      safe.bound

planned-IsSafe :
    (host : Host) (ids : FreshIds) (incident diagnosis : ℕ) (cause : String)
    (target : TargetBinding) (version : ℕ) (p : RemediationPlan)
    → create_plan host ids incident diagnosis cause target version ≡ planned p
    → IsSafe host (default_registry host) p (some target)
unfolding create_plan
planned-IsSafe host ids incident diagnosis cause target version p h =
    let plan = draft host ids incident diagnosis cause target version in
    let (nil, same) =
      assert_planned plan p (validate host (default_registry host) plan (some target) true)
        (ground (arith, h)) in
    subst (λ q. IsSafe host (default_registry host) q (some target)) same
      ((validate-nil_iff host (default_registry host) plan (some target)).0 nil)

-- For one of the three causes, a target that pydantic takes and a version from 1 on, where pydantic reads
-- integers and printed UUIDs back, the planner returns a plan exactly where the service is "demo-api",
-- and then a plan that is safe for the target.
pub create_plan-planned_iff :
    (host : Host) (ids : FreshIds) (incident diagnosis : ℕ) (cause : String)
    (target : TargetBinding) (version : ℕ)
    → IsFaithful host
    → IsBinding target
    → is_restart_cause cause ≡ true
    → 1 ≤ version
    → (((p : RemediationPlan) × (create_plan host ids incident diagnosis cause target version
            ≡ planned p))
        ↔ (target.service_name ≡ "demo-api"))
      × (((p : RemediationPlan) × (create_plan host ids incident diagnosis cause target version
              ≡ planned p)
            × IsSafe host (default_registry host) p (some target))
          ↔ (target.service_name ≡ "demo-api"))
unfolding create_plan assert_valid
create_plan-planned_iff host ids incident diagnosis cause target version faithful binding h v =
    let plan = restart_plan host ids incident diagnosis target version in
    let first = draft host ids incident diagnosis cause target version in
    let same = draft-restart host ids incident diagnosis cause target version h in
    let opened : create_plan host ids incident diagnosis cause target version
        ≡ assert_valid first (validate host (default_registry host) first (some target) true) =
      ground (arith, v) in
    let returned : target.service_name ≡ "demo-api"
        → create_plan host ids incident diagnosis cause target version ≡ planned plan =
      λ demo.
        let safe =
          restart-IsSafe host faithful ids target binding incident diagnosis version demo in
        let nil = (validate-nil_iff host (default_registry host) plan (some target)).1 safe in
        opened
        ∙ ap (λ q. assert_valid q (validate host (default_registry host) q (some target) true)) same
        ∙ ap (assert_valid plan) nil in
    let service : (p : RemediationPlan)
        → create_plan host ids incident diagnosis cause target version ≡ planned p
        → target.service_name ≡ "demo-api" =
      λ p e.
        let safe = planned-IsSafe host ids incident diagnosis cause target version p e in
        sym (safe.matches target refl).2 ∙ safe.allowlisted in
    (
      ((λ (p, e). service p e), λ demo. (plan, returned demo)),
      (
        (λ (p, e, safe). service p e),
        λ demo. (
          plan,
          returned demo,
          restart-IsSafe host faithful ids target binding incident diagnosis version demo,
        ),
      ),
    )
