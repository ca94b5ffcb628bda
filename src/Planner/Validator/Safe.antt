-- ===== src/Planner/Validator/Safe.antt =====
-- A plan that is safe, stated with no check in it, and that the validator takes exactly those.
use self_healing_agent.Prelude.{
  refl, none, sym, subst, false, sym, inr, [], inl, str_eq_refl, Bool-cases, subst, ◌≤◌, length,
  str_eq→eq, arith, ◌≢◌, All, true, ◌==◌, str_eq, ◌↔◌, ℕ, some, ◌<◌, ◌++◌, not, false, any, List,
  Bool, String, ◌≡◌, Option,
}
use self_healing_agent.Planner.Schemas.{
  null, other, number, Parameters, get, is_truthy, text, Value, Host, RemediationStep,
  RemediationPlan, TargetBinding,
}
use self_healing_agent.Planner.Actions.{BaseAction, Registry, get_action}
use self_healing_agent.Planner.Validator.{
  ◌∷◌, when, mutating_steps, step_errors, differs, PlanError, compute_plan_content_hash,
}

-- Where the parameters hold a value under the key, it is absent in truth or the one expected.
abbrev pub Names : Parameters → String → String → Type 0
Names params key expected =
    (v : Value) → get params key ≡ some v → is_truthy v ≡ true → v ≡ text expected

pub record IsBound (registry : Registry) (target : TargetBinding) (step : RemediationStep)
    : Type 0 where
  pub action : BaseAction
  pub registered : get_action registry step.action ≡ some action
  pub parameters : action.validate_parameters step.parameters ≡ true
  pub resource : step.resource_id ≡ target.resource_id
  pub container : Names step.parameters "container_id" target.container_id
  pub service : Names step.parameters "service_name" target.service_name

abbrev pub Distinct : List RemediationStep → Type 0
Distinct [] = Unit
Distinct (s ∷ steps) = All (λ (t : RemediationStep). t.position ≢ s.position) steps × Distinct steps

-- The plan has a step of the action, and every one is where it must be.
abbrev pub Placed : (RemediationStep → Type 0) → String → List RemediationStep → Type 0
Placed P action steps =
    (any (λ s. str_eq s.action action) steps ≡ true)
    × All (λ (s : RemediationStep). s.action ≡ action → P s) steps

-- Inspections come before the mutation, stabilization after it.
abbrev pub InOrder : List RemediationStep → RemediationStep → Type 0
InOrder steps m =
    Placed (λ s. s.position < m.position) "inspect_container" steps
    × Placed (λ s. m.position < s.position) "wait_for_stabilization" steps

abbrev pub SameTarget : TargetBinding → TargetBinding → Type 0
SameTarget target expected =
    (target.resource_id ≡ expected.resource_id)
    × (target.container_id ≡ expected.container_id)
    × (target.service_name ≡ expected.service_name)
    × (target.binding_generation ≡ expected.binding_generation)

pub record IsSafe (host : Host) (registry : Registry) (plan : RemediationPlan)
    (expected : Option TargetBinding) : Type 0 where
  pub matches : (e : TargetBinding) → expected ≡ some e → SameTarget plan.target_binding e
  pub allowlisted : plan.target_binding.service_name ≡ "demo-api"
  pub bound : All (IsBound registry plan.target_binding) plan.steps
  pub distinct : Distinct plan.steps
  pub single : length (mutating_steps registry plan.steps) ≤ 1
  pub restarts :
      All
        (λ (m : RemediationStep). m.action ≡ "restart_container")
        (mutating_steps registry plan.steps)
  pub ordered : All (InOrder plan.steps) (mutating_steps registry plan.steps)
  pub sealed :
      compute_plan_content_hash host plan.incident_id plan.diagnosis_id plan.version plan.risk
        plan.target_binding plan.steps plan.verification_profile
      ≡ plan.content_hash

pub append_nil_iff {ℓ} : {A : Type ℓ} (xs ys : List A) → (xs ++ ys ≡ []) ↔ ((xs ≡ []) × (ys ≡ []))
append_nil_iff [] ys = ((λ h. (refl, h)), λ h. h.1)
append_nil_iff (x ∷ xs) ys = ((λ h. absurd (ground (arith, h))), λ h. absurd (ground (arith, h.0)))

pub when_nil_iff : (b : Bool) (e : PlanError) → (when b e ≡ []) ↔ (b ≡ false)
unfolding when
when_nil_iff true e = ((λ h. absurd (ground (arith, h))), λ h. absurd (ground (arith, h)))
when_nil_iff false e = ((λ h. refl), λ h. refl)

pub not_str_iff : (s t : String) → (not (str_eq s t) ≡ false) ↔ (s ≡ t)
not_str_iff s t = (
  (λ h. str_eq→eq s t (ground (arith, h))),
  λ e.
      let same : str_eq s t ≡ true = subst (λ x. str_eq s x ≡ true) e (str_eq_refl s) in
      ground (arith, same),
)

pub value_iff :
    (o : Option Value) (expected : String)
    → (differs o expected ≡ false)
      ↔ ((v : Value) → o ≡ some v → is_truthy v ≡ true → v ≡ text expected)
unfolding differs is_truthy
value_iff none expected = ((λ h v e t. absurd (ground (arith, e))), λ h. refl)
value_iff (some (text s)) expected = (
  (λ h v e t. elim (Bool-cases (str_eq s expected)) [
    | inl same ↦ let eq = str_eq→eq s expected same in ground (arith, e, eq)
    | inr apart ↦
        let is_text : text s ≡ v = ground (arith, e) in
        let here : is_truthy (text s) ≡ true = subst (λ x. is_truthy x ≡ true) (sym is_text) t in
        absurd (ground (arith, h, here, apart))
  ]),
  λ h. elim (Bool-cases (str_eq s "")) [
    | inl nil ↦ ground (arith, nil)
    | inr some_text ↦
        let named = h (text s) refl (ground (arith, some_text)) in
        let eq : s ≡ expected = ground (arith, named) in
        let same : str_eq s expected ≡ true = subst (λ x. str_eq s x ≡ true) eq (str_eq_refl s) in
        ground (arith, same)
  ],
)
value_iff (some (number n)) expected =
    ((λ h v e t. ground (arith, h, e, t)), λ h. ground (arith, h (number n) refl))
value_iff (some null) expected =
    ((λ h v e t. ground (arith, h, e, t)), λ h. ground (arith, h null refl))
value_iff (some (other b)) expected =
    ((λ h v e t. ground (arith, h, e, t)), λ h. ground (arith, h (other b) refl))

pub step_nil_iff :
    (registry : Registry) (target : TargetBinding) (step : RemediationStep) (action : BaseAction)
    → get_action registry step.action ≡ some action
    → (step_errors target step action ≡ []) ↔ IsBound registry target step
unfolding step_errors when
step_nil_iff registry target step action here = (
  (λ h. record {
    action = action;
    registered = here;
    parameters = ground (arith, h);
    resource = ground (arith, h);
    container =
        (value_iff (get step.parameters "container_id") target.container_id).0 (ground (arith, h));
    service =
        (value_iff (get step.parameters "service_name") target.service_name).0 (ground (arith, h));
  }),
  λ b.
      let same : b.action ≡ action = ground (arith, here, b.registered) in
      let valid = subst (λ a. a.validate_parameters step.parameters ≡ true) same b.parameters in
      let c = (value_iff (get step.parameters "container_id") target.container_id).1 b.container in
      let s = (value_iff (get step.parameters "service_name") target.service_name).1 b.service in
      let r = b.resource in ground (arith, valid, c, s, r),
)

pub any-false_iff :
    (seen : List ℕ) (n : ℕ) → (any (λ p. p == n) seen ≡ false) ↔ All (λ (p : ℕ). n ≢ p) seen
any-false_iff [] n = ((λ h. tt), λ h. refl)
any-false_iff (p ∷ seen) n =
    let rec = any-false_iff seen n in
    (
      (λ h. (ground (arith, h), rec.0 (ground (arith, h)))),
      λ h. let later = rec.1 h.1 in let here = h.0 in ground (arith, later, here),
    )
