-- ===== src/Planner/DryRun/Total.antt =====
-- When a dry run raises, and what it says of a plan that is valid.
use self_healing_agent.Prelude.{
  ◌≢◌, Option, refl, none, str_eq→neq, [], inr, Option-cases, none, All, List, subst, str_eq→eq,
  sym, inl, arith, Bool-cases, false, ◌↔◌, str_eq, true, some, String, ◌≡◌,
}
use self_healing_agent.Planner.Mapper.Restart.{restart_registered}
use self_healing_agent.Planner.Schemas.{
  TargetBinding, low_risk, Host, RemediationStep, RemediationPlan, Parameters,
}
use self_healing_agent.Planner.Actions.{
  BaseAction, restart_container_params, restart_preconditions, model_validate, register,
  restart_container_action, register_all, get_action, default_registry,
}
use self_healing_agent.Planner.Validator.{validate}
use self_healing_agent.Planner.Validator.Safe.{IsBound, IsSafe}
use self_healing_agent.Planner.Validator.Contract.{validate-nil_iff, is_empty_iff}
use self_healing_agent.Planner.DryRun.{
  dry_run_record, ◌∷◌, DryRun, is_low, SimulatedStep, execute_dry_run, simulate, simulate_all,
}

abbrev pub RestartValid : Host → RemediationStep → Type 0
RestartValid host s =
    s.action ≡ "restart_container"
    → model_validate (restart_container_params host) s.parameters ≡ true

other_registered :
    (host : Host) (key : String) (a : BaseAction)
    → str_eq "restart_container" key ≡ false
    → get_action (default_registry host) key ≡ some a
    → (params : Parameters) → a.check_preconditions params ≡ some true
unfolding default_registry register_all register get_action restart_container_action
other_registered host key a apart h params = ground (arith, apart, h)

not-none {ℓ} : {A : Type ℓ} (o : Option A) → o ≢ none → (a : A) × (o ≡ some a)
not-none none h = absurd (h refl)
not-none (some a) h = (a, refl)

simulate-some_iff :
    (host : Host) (s : RemediationStep)
    → ((x : SimulatedStep) × (simulate (default_registry host) s ≡ some x)) ↔ RestartValid host s
unfolding simulate restart_container_action restart_preconditions
simulate-some_iff host s = elim (Bool-cases (str_eq "restart_container" s.action)) [
  | inl same ↦
      let e = sym (str_eq→eq "restart_container" s.action same) in
      let here : get_action (default_registry host) s.action
          ≡ some (restart_container_action host) =
        subst (λ x. get_action (default_registry host) x ≡ some (restart_container_action host))
          (sym e) (restart_registered host) in
      (
        (λ (x, h) eq. ground (arith, here, h)),
        λ ok.
            let valid = ok e in
            not-none (simulate (default_registry host) s)
              (λ gone. ground (arith, here, valid, gone)),
      )
  | inr apart ↦ (
    (λ h e. absurd (str_eq→neq "restart_container" s.action apart (sym e))),
    λ ok. not-none (simulate (default_registry host) s) (λ gone.
        elim (Option-cases (get_action (default_registry host) s.action)) [
          | inl missing ↦ ground (arith, gone, missing)
          | inr (a, here) ↦
              let answers = other_registered host s.action a apart here s.parameters in
              ground (arith, here, answers, gone)
        ]),
  )
]

simulate_all-some_iff :
    (host : Host) (steps : List RemediationStep)
    → ((xs : List SimulatedStep) × (simulate_all (default_registry host) steps ≡ some xs))
      ↔ All (RestartValid host) steps
unfolding simulate_all
simulate_all-some_iff host [] = ((λ h. tt), λ h. ([], refl))
simulate_all-some_iff host (s ∷ steps) =
    let this = simulate-some_iff host s in
    let rec = simulate_all-some_iff host steps in
    (
      (λ (xs, h). elim (Option-cases (simulate (default_registry host) s)) [
        | inl raises ↦ absurd (ground (arith, h, raises))
        | inr (x, here) ↦ elim (Option-cases (simulate_all (default_registry host) steps)) [
          | inl later ↦ absurd (ground (arith, h, here, later))
          | inr (ys, later) ↦ (this.0 (x, here), rec.0 (ys, later))
        ]
      ]),
      λ (ok, oks).
          let (x, here) = this.1 ok in
          let (ys, later) = rec.1 oks in (x ∷ ys, ground (arith, here, later)),
    )

-- A step that is bound and restarts has valid parameters.
IsBound-RestartValid :
    (host : Host) (target : TargetBinding) (steps : List RemediationStep)
    → All (IsBound (default_registry host) target) steps
    → All (RestartValid host) steps
unfolding restart_container_action
IsBound-RestartValid host target [] bound = tt
IsBound-RestartValid host target (s ∷ steps) (b, bound) = (
  (λ e.
      let there : get_action (default_registry host) s.action
          ≡ some (restart_container_action host) =
        subst (λ x. get_action (default_registry host) x ≡ some (restart_container_action host))
          (sym e) (restart_registered host) in
      let registered = b.registered in
      let same : b.action ≡ restart_container_action host = ground (arith, there, registered) in
      subst (λ (a : BaseAction). a.validate_parameters s.parameters ≡ true) same b.parameters),
  IsBound-RestartValid host target steps bound,
)

-- A dry run with the default actions returns a record exactly where every restart step has valid
-- parameters, and raises otherwise; it returns one that calls the plan eligible exactly where the plan
-- is safe and of low risk.
pub execute_dry_run-some_iff :
    (host : Host) (plan : RemediationPlan) (policy_rules : Parameters)
    → (((d : DryRun) × (execute_dry_run host (default_registry host) plan policy_rules ≡ some d))
        ↔ All (RestartValid host) plan.steps)
      × (((d : DryRun) × (execute_dry_run host (default_registry host) plan policy_rules ≡ some d)
            × (d.eligible_for_execution ≡ true))
          ↔ (IsSafe host (default_registry host) plan none × (plan.risk ≡ low_risk)))
unfolding execute_dry_run is_low
execute_dry_run-some_iff host plan policy_rules =
    let registry = default_registry host in
    let all_steps = simulate_all-some_iff host plan.steps in
    let safe = validate-nil_iff host registry plan none in
    let nil = is_empty_iff (validate host registry plan none true) in
    (
      (
        (λ (d, h). elim (Option-cases (simulate_all registry plan.steps)) [
          | inl raises ↦ absurd (ground (arith, h, raises))
          | inr (xs, here) ↦ all_steps.0 (xs, here)
        ]),
        λ ok.
            let (xs, here) = all_steps.1 ok in
            not-none (execute_dry_run host registry plan policy_rules)
              (λ gone. ground (arith, here, gone)),
      ),
      (
        (λ (d, h, e). elim (Option-cases (simulate_all registry plan.steps)) [
          | inl raises ↦ absurd (ground (arith, h, raises))
          | inr (xs, here) ↦
              (safe.0 (nil.0 (ground (arith, h, here, e))), ground (arith, h, here, e))
        ]),
        λ (s, low).
            let (xs, here) =
              all_steps.1 (IsBound-RestartValid host plan.target_binding plan.steps s.bound) in
            let none_found = nil.1 (safe.1 s) in
            (
              dry_run_record host registry plan policy_rules xs,
              ground (arith, here),
              ground (arith, none_found, low),
            ),
      ),
    )
