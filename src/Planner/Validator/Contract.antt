-- ===== src/Planner/Validator/Contract.antt =====
-- The validator against the contract of Safe.
use self_healing_agent.Prelude.{
  ltb, ◌≤◌, length, true, ◌++◌, inr, inl, not, Bool-cases, str_eq, refl, arith, some, [], is_empty,
  ◌↔◌, All, ◌≡◌, List, Option,
}
use self_healing_agent.Planner.Schemas.{Host, RemediationStep, RemediationPlan, TargetBinding}
use self_healing_agent.Planner.Actions.{Registry}
use self_healing_agent.Planner.Validator.{
  several_mutations, hash_mismatch, service_not_allowlisted, compute_plan_content_hash, ◌∷◌,
  validate, contract_errors, hash_errors, when, mutating_steps, expected_errors, steps_errors,
  mutation_errors, sequence_errors,
}
use self_healing_agent.Planner.Validator.Safe.{
  IsSafe, InOrder, SameTarget, append_nil_iff, when_nil_iff, not_str_iff,
}
use self_healing_agent.Planner.Validator.Checks.{
  expected_nil_iff, steps_nil_iff, mutation_nil_iff, sequence_nil_iff, All_all, StepsFit, Fresh,
}

pub is_empty_iff {ℓ} : {A : Type ℓ} (xs : List A) → (is_empty xs ≡ true) ↔ (xs ≡ [])
is_empty_iff [] = ((λ h. refl), λ h. refl)
is_empty_iff (x ∷ xs) = ((λ h. absurd (ground (arith, h))), λ h. absurd (ground (arith, h)))

six_nil_iff {ℓ} :
    {A : Type ℓ} (a b c d e f : List A)
    → (a ++ b ++ c ++ d ++ e ++ f ≡ [])
      ↔ ((a ≡ []) × (b ≡ []) × (c ≡ []) × (d ≡ []) × (e ≡ []) × (f ≡ []))
six_nil_iff a b c d e f = (
  (λ h.
      let (l5, f') = (append_nil_iff (a ++ b ++ c ++ d ++ e) f).0 h in
      let (l4, e') = (append_nil_iff (a ++ b ++ c ++ d) e).0 l5 in
      let (l3, d') = (append_nil_iff (a ++ b ++ c) d).0 l4 in
      let (l2, c') = (append_nil_iff (a ++ b) c).0 l3 in
      let (a', b') = (append_nil_iff a b).0 l2 in (a', b', c', d', e', f')),
  λ (a', b', c', d', e', f'). (append_nil_iff (a ++ b ++ c ++ d ++ e) f).1 (
    (append_nil_iff (a ++ b ++ c ++ d) e).1 (
      (append_nil_iff (a ++ b ++ c) d).1
          ((append_nil_iff (a ++ b) c).1 ((append_nil_iff a b).1 (a', b'), c'), d'),
      e',
    ),
    f',
  ),
)

-- What steps 2 to 5 check.
abbrev Contract : Registry → RemediationPlan → Option TargetBinding → Type 0
Contract registry plan expected =
    ((e : TargetBinding) → expected ≡ some e → SameTarget plan.target_binding e)
    × (plan.target_binding.service_name ≡ "demo-api")
    × StepsFit registry plan.target_binding [] plan.steps
    × (length (mutating_steps registry plan.steps) ≤ 1)
    × All (λ (m : RemediationStep). m.action ≡ "restart_container")
        (mutating_steps registry plan.steps)
    × All (InOrder plan.steps) (mutating_steps registry plan.steps)

contract_errors-nil_iff :
    (registry : Registry) (plan : RemediationPlan) (expected : Option TargetBinding)
    → (contract_errors registry plan expected ≡ []) ↔ Contract registry plan expected
unfolding contract_errors
contract_errors-nil_iff registry plan expected =
    let ms = mutating_steps registry plan.steps in
    let six =
      six_nil_iff (expected_errors plan.target_binding expected)
        (when (not (str_eq plan.target_binding.service_name "demo-api")) service_not_allowlisted)
        (steps_errors registry plan.target_binding [] plan.steps)
        (when (ltb 1 (length ms)) several_mutations) (mutation_errors ms)
        (sequence_errors plan.steps ms) in
    let target = expected_nil_iff plan.target_binding expected in
    let service = not_str_iff plan.target_binding.service_name "demo-api" in
    let listed =
      when_nil_iff (not (str_eq plan.target_binding.service_name "demo-api"))
        service_not_allowlisted in
    let fit = steps_nil_iff registry plan.target_binding [] plan.steps in
    let several = when_nil_iff (ltb 1 (length ms)) several_mutations in
    let restarts = mutation_nil_iff ms in
    (
      (λ h.
          let (a, b, c, d, e, f) = six.0 h in
          let one : length ms ≤ 1 = let few = several.0 d in ground (arith, few) in
          (
            target.0 a,
            service.0 (listed.0 b),
            fit.0 c,
            one,
            restarts.0 e,
            (sequence_nil_iff plan.steps ms one).0 f,
          )),
      λ (a, b, c, one, e, f). six.1 (
        target.1 a,
        listed.1 (service.1 b),
        fit.1 c,
        several.1 (ground (arith, one)),
        restarts.1 e,
        (sequence_nil_iff plan.steps ms one).1 f,
      ),
    )

sealed_iff :
    (host : Host) (plan : RemediationPlan)
    → (hash_errors host plan ≡ []) ↔ (
        compute_plan_content_hash host plan.incident_id plan.diagnosis_id plan.version plan.risk
          plan.target_binding plan.steps plan.verification_profile
        ≡ plan.content_hash)
unfolding hash_errors
sealed_iff host plan =
    let digest =
      compute_plan_content_hash host plan.incident_id plan.diagnosis_id plan.version plan.risk
        plan.target_binding plan.steps plan.verification_profile in
    let same = not_str_iff digest plan.content_hash in
    let none_found = when_nil_iff (not (str_eq digest plan.content_hash)) hash_mismatch in
    ((λ h. same.0 (none_found.0 h)), λ e. none_found.1 (same.1 e))

validate_iff :
    (host : Host) (registry : Registry) (plan : RemediationPlan) (expected : Option TargetBinding)
    → (validate host registry plan expected true ≡ [])
      ↔ ((contract_errors registry plan expected ≡ []) × (hash_errors host plan ≡ []))
unfolding validate
validate_iff host registry plan expected = (
  (λ h. elim (Bool-cases (is_empty (contract_errors registry plan expected))) [
    | inl nil ↦
        ((is_empty_iff (contract_errors registry plan expected)).0 nil, ground (arith, h, nil))
    | inr more ↦
        let gone =
          (is_empty_iff (contract_errors registry plan expected)).1 (ground (arith, h, more)) in
        absurd (ground (arith, gone, more))
  ]),
  λ (c, s).
      let nil = (is_empty_iff (contract_errors registry plan expected)).1 c in
      ground (arith, nil, s),
)

pub validate-nil_iff :
    (host : Host) (registry : Registry) (plan : RemediationPlan) (expected : Option TargetBinding)
    → (validate host registry plan expected true ≡ []) ↔ IsSafe host registry plan expected
validate-nil_iff host registry plan expected =
    let parts = validate_iff host registry plan expected in
    let contract = contract_errors-nil_iff registry plan expected in
    let seal = sealed_iff host plan in
    (
      (λ h.
          let (nil, no_mismatch) = parts.0 h in
          let (target, service, (bound, unseen, distinct), one, restarts, ordered) =
            contract.0 nil in
          record {
            matches = target;
            allowlisted = service;
            bound = bound;
            distinct = distinct;
            single = one;
            restarts = restarts;
            ordered = ordered;
            sealed = seal.0 no_mismatch;
          }),
      λ s. parts.1 (
        contract.1 (
          s.matches,
          s.allowlisted,
          (s.bound, All_all (Fresh []) plan.steps (λ t. tt), s.distinct),
          s.single,
          s.restarts,
          s.ordered,
        ),
        seal.1 s.sealed,
      ),
    )
