-- ===== src/Planner/Mapper/Restart.antt =====
-- The plan of a restart, and that it is safe.
use self_healing_agent.Planner.Validator.Safe.{SameTarget, IsSafe, InOrder, IsBound}
use self_healing_agent.Planner.Validator.{compute_plan_content_hash, is_mutation, mutating_steps}
use self_healing_agent.Text.{lower_code, word_here, is_word}
use self_healing_agent.Prelude.{
  length, str_eq→neq, sym, false, All, String, sym, subst, str_eq, ◌&&◌, not, arith, [], ◌∷◌, refl,
  ◌≤◌, some, true, ◌≡◌, ℕ,
}
use self_healing_agent.Planner.Schemas.{
  RemediationStep, low_risk, RemediationPlan, text, number, Host, TargetBinding, get,
}
use self_healing_agent.Planner.Actions.{
  is_shell_char, finds_shell, has_shell, within, restart_container_params, int_field, is_null,
  text_and, wait_for_stabilization_params, generation_field, read_only, verification_declaration,
  plain_action, uuid_field, restart_container_action, container_id_field, get_action,
  inspect_container_params, register, register_all, is_container_id, model_validate,
  default_registry,
}
use self_healing_agent.Planner.Mapper.{
  is_restart_cause, restart_steps, FreshIds, draft, profile_name,
}

-- pydantic reads back the integers and the printed UUIDs of a plan.
pub record IsFaithful (host : Host) : Type 0 where
  pub int_read : (n : ℕ) → host.int_of (number n) ≡ some n
  pub uuid_read : (u : ℕ) → host.uuid_of (text (host.show_uuid u)) ≡ some u

-- What pydantic checks of a `TargetBinding`, as far as plans depend on it.
pub record IsBinding (target : TargetBinding) : Type 0 where
  pub container : is_container_id target.container_id ≡ true
  pub generation : 1 ≤ target.binding_generation

module _ (host : Host) where
  inspect_registered :
      get_action (default_registry host) "inspect_container"
      ≡ some (plain_action "inspect_container" read_only (inspect_container_params host))
  unfolding default_registry register_all register get_action restart_container_action
  inspect_registered = refl

  pub restart_registered :
      get_action (default_registry host) "restart_container" ≡ some (restart_container_action host)
  unfolding default_registry register_all register get_action restart_container_action
  restart_registered = refl

  wait_registered :
      get_action (default_registry host) "wait_for_stabilization"
      ≡ some (
          plain_action "wait_for_stabilization" verification_declaration
            (wait_for_stabilization_params host))
  unfolding default_registry register_all register get_action restart_container_action
  wait_registered = refl

module _ (host : Host) (faithful : IsFaithful host) (target : TargetBinding)
    (binding : IsBinding target) where
  inspect_valid :
      model_validate (inspect_container_params host) (
        ("container_id", text target.container_id)
        ∷ ("resource_id", text (host.show_uuid target.resource_id))
        ∷ ("binding_generation", number target.binding_generation)
        ∷ [])
      ≡ true
  unfolding model_validate inspect_container_params container_id_field uuid_field generation_field
      get text_and is_null
  inspect_valid =
      let i = faithful.int_read target.binding_generation in
      let u = faithful.uuid_read target.resource_id in
      let c = binding.container in let g = binding.generation in ground (arith, i, u, c, g)

  restart_valid :
      target.service_name ≡ "demo-api"
      → model_validate (restart_container_params host) (
          ("container_id", text target.container_id)
          ∷ ("resource_id", text (host.show_uuid target.resource_id))
          ∷ ("service_name", text target.service_name)
          ∷ ("timeout_seconds", number 30)
          ∷ ("binding_generation", number target.binding_generation)
          ∷ [])
        ≡ true
  unfolding model_validate restart_container_params container_id_field uuid_field generation_field
      int_field get text_and is_null within has_shell finds_shell is_shell_char is_word word_here
      lower_code
  restart_valid demo =
      let i = faithful.int_read target.binding_generation in
      let t = faithful.int_read 30 in
      let u = faithful.uuid_read target.resource_id in
      let c = binding.container in
      let g = binding.generation in
      let safe : not (has_shell target.service_name) && str_eq target.service_name "demo-api"
          ≡ true =
        subst (λ s. not (has_shell s) && str_eq s "demo-api" ≡ true) (sym demo) refl in
      ground (arith, i, t, u, c, g, safe)

  wait_valid :
      model_validate (wait_for_stabilization_params host) (
        ("resource_id", text (host.show_uuid target.resource_id))
        ∷ ("duration_seconds", number 90)
        ∷ ("verification_profile", text profile_name)
        ∷ [])
      ≡ true
  unfolding model_validate wait_for_stabilization_params uuid_field int_field get text_and within
      has_shell finds_shell is_shell_char is_word word_here lower_code
  wait_valid =
      let t = faithful.int_read 90 in
      let u = faithful.uuid_read target.resource_id in ground (arith, t, u)

-- The draft for one of the three causes.
abbrev pub restart_plan : Host → FreshIds → ℕ → ℕ → TargetBinding → ℕ → RemediationPlan
restart_plan host ids incident diagnosis target version = record {
  id = ids.plan;
  incident_id = incident;
  diagnosis_id = diagnosis;
  version = version;
  risk = low_risk;
  target_binding = target;
  steps = restart_steps host ids target;
  verification_profile = some profile_name;
  content_hash =
      compute_plan_content_hash host incident diagnosis version low_risk target
        (restart_steps host ids target) (some profile_name);
  approved = false;
}

pub draft-restart :
    (host : Host) (ids : FreshIds) (incident diagnosis : ℕ) (cause : String)
    (target : TargetBinding) (version : ℕ)
    → is_restart_cause cause ≡ true
    → draft host ids incident diagnosis cause target version
      ≡ restart_plan host ids incident diagnosis target version
unfolding draft
draft-restart host ids incident diagnosis cause target version h = ground (arith, h)

module _ (host : Host) (faithful : IsFaithful host) (ids : FreshIds) (target : TargetBinding)
    (binding : IsBinding target) where
  restart_mutations :
      (s : RemediationStep) × (mutating_steps
          (default_registry host)
          (restart_steps host ids target)
        ≡ s ∷ [])
      × (s.action ≡ "restart_container")
      × (s.position ≡ 1)
  unfolding mutating_steps restart_steps default_registry register_all register get_action
      restart_container_action is_mutation
  restart_mutations = (_, refl, refl, refl)

  restart-IsBound :
      target.service_name ≡ "demo-api"
      → All (IsBound (default_registry host) target) (restart_steps host ids target)
  unfolding restart_steps get restart_container_action
  restart-IsBound demo = (
    record {
      action = plain_action "inspect_container" read_only (inspect_container_params host);
      registered = inspect_registered host;
      parameters = inspect_valid host faithful target binding;
      resource = refl;
      container = λ v h t. ground (arith, h);
      service = λ v h t. ground (arith, h);
    },
    (
      record {
        action = restart_container_action host;
        registered = restart_registered host;
        parameters = restart_valid host faithful target binding demo;
        resource = refl;
        container = λ v h t. ground (arith, h);
        service = λ v h t. ground (arith, h);
      },
      (
        record {
          action =
              plain_action "wait_for_stabilization" verification_declaration
                (wait_for_stabilization_params host);
          registered = wait_registered host;
          parameters = wait_valid host faithful target binding;
          resource = refl;
          container = λ v h t. ground (arith, h);
          service = λ v h t. ground (arith, h);
        },
        tt,
      ),
    ),
  )

  restart_ordered :
      (m : RemediationStep) → m.position ≡ 1 → InOrder (restart_steps host ids target) m
  unfolding restart_steps
  restart_ordered m at = (
    (
      refl,
      (
        (λ e. ground (arith, at)),
        (
          (λ e. absurd (str_eq→neq "restart_container" "inspect_container" refl e)),
          ((λ e. absurd (str_eq→neq "wait_for_stabilization" "inspect_container" refl e)), tt),
        ),
      ),
    ),
    (
      refl,
      (
        (λ e. absurd (str_eq→neq "inspect_container" "wait_for_stabilization" refl e)),
        (
          (λ e. absurd (str_eq→neq "restart_container" "wait_for_stabilization" refl e)),
          ((λ e. ground (arith, at)), tt),
        ),
      ),
    ),
  )

  pub restart-IsSafe :
      (incident diagnosis version : ℕ)
      → target.service_name ≡ "demo-api"
      → IsSafe host
          (default_registry host)
          (restart_plan host ids incident diagnosis target version)
          (some target)
  unfolding restart_steps
  restart-IsSafe incident diagnosis version demo =
      let (m, one, restarts, second) = restart_mutations in
      record {
        matches = λ e h.
            let same : target ≡ e = ground (arith, h) in
            subst (λ x. SameTarget target x) same (refl, refl, refl, refl);
        allowlisted = demo;
        bound = restart-IsBound demo;
        distinct = (
          ((λ e. ground (arith, e)), ((λ e. ground (arith, e)), tt)),
          (((λ e. ground (arith, e)), tt), (tt, tt)),
        );
        single = subst (λ x. length x ≤ 1) (sym one) (ground arith);
        restarts =
            subst (λ x. All (λ (n : RemediationStep). n.action ≡ "restart_container") x) (sym one)
              (restarts, tt);
        ordered =
            subst (λ x. All (InOrder (restart_steps host ids target)) x) (sym one)
              (restart_ordered m second, tt);
        sealed = refl;
      }
