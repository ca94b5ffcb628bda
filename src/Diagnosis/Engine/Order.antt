-- ===== src/Diagnosis/Engine/Order.antt =====
-- Which rule answers, as a chain of tests.
use self_healing_agent.Prelude.{
  refl, Bool-cases, inr, ◌⊎◌, [], inl, leb, some_and, true, ◌||◌, if◌then◌else◌, String, ◌&&◌,
  arith, false, Option, not, ◌≡◌, ℕ, Bool, List,
}
use self_healing_agent.Diagnosis.Schemas.{Finding, ObservationBundle}
use self_healing_agent.Diagnosis.Engine.{
  RuleEvaluationResult, findings_of, ◌∷◌, is_missing, is_stale, insert_rule, is_unavailable,
  sort_rules, DiagnosticRule, chosen_diagnosis, unmatched_diagnosis, default_rules, matches_of,
  diagnose,
}
use self_healing_agent.Diagnosis.Rules.{
  all_evidence, readiness_failed, pool_full, redis_off, is_up, has_stopped, is_responsive,
  is_saturated, is_healthy, is_stopped, is_dependency_down, is_up_and_ready, is_foreign_cpu,
  no_fault_rule, cpu_rule, dependency_rule, container_stopped_rule, api_rule,
}

stopped_rule_lem :
    (obs : ObservationBundle)
    → ((container_stopped_rule obs).matched ≡ is_stopped obs)
      × ((container_stopped_rule obs).is_actionable ≡ is_stopped obs)
unfolding container_stopped_rule is_up_and_ready is_stopped has_stopped is_up
stopped_rule_lem obs = ground arith

dependency_rule_lem :
    (obs : ObservationBundle)
    → ((dependency_rule obs).matched ≡ is_dependency_down obs)
      × ((dependency_rule obs).is_actionable ≡ false)
unfolding dependency_rule
dependency_rule_lem obs = ground arith

cpu_rule_lem :
    (obs : ObservationBundle)
    → ((cpu_rule obs).matched ≡ is_saturated obs)
      × ((cpu_rule obs).is_actionable ≡ is_saturated obs)
unfolding cpu_rule is_foreign_cpu is_saturated has_stopped is_up
cpu_rule_lem obs = ground arith

-- The match condition of rule 3, its contradictions included.
unfoldable pub api_test : ObservationBundle → Bool
api_test obs =
    not (is_responsive obs)
    && not (some_and obs.normalized_cpu (λ c. leb 7500 c))
    && not (redis_off obs || pool_full obs)
    && is_up obs.container_status
    && readiness_failed obs

api_rule_lem :
    (obs : ObservationBundle)
    → ((api_rule obs).matched ≡ api_test obs) × ((api_rule obs).is_actionable ≡ api_test obs)
unfolding api_rule api_test
api_rule_lem obs = ground arith

no_fault_rule_lem :
    (obs : ObservationBundle)
    → ((no_fault_rule obs).matched ≡ is_healthy obs) × ((no_fault_rule obs).is_actionable ≡ false)
unfolding no_fault_rule
no_fault_rule_lem obs = ground arith

-- Whether the first rule that matches names a candidate for a restart.
unfoldable pub first_actionable : List DiagnosticRule → ObservationBundle → Bool
first_actionable [] obs = false
first_actionable (r ∷ rules) obs =
    if (r.evaluate obs).matched then (r.evaluate obs).is_actionable else first_actionable rules obs

first_lem :
    (rules : List DiagnosticRule) (obs : ObservationBundle)
    → ((matches_of rules obs ≡ []) × (first_actionable rules obs ≡ false))
      ⊎ ((r : RuleEvaluationResult) × ((rest : List RuleEvaluationResult) × (matches_of rules obs
              ≡ r ∷ rest)
            × (first_actionable rules obs ≡ r.is_actionable)))
unfolding matches_of first_actionable
first_lem [] obs = inl (refl, refl)
first_lem (r ∷ rules) obs = elim (Bool-cases (r.evaluate obs).matched) [
  | inl yes_match ↦
      inr (
        r.evaluate obs,
        (matches_of rules obs, ground (arith, yes_match), ground (arith, yes_match)),
      )
  | inr no_match ↦ elim (first_lem rules obs) [
    | inl (gone, off) ↦ inl (ground (arith, no_match, gone), ground (arith, no_match, off))
    | inr (x, (rest, here, same)) ↦
        inr (x, (rest, ground (arith, no_match, here), ground (arith, no_match, same)))
  ]
]

unfoldable pub is_refused : ObservationBundle → Bool
is_refused obs = is_unavailable obs || is_stale obs || is_missing obs.container_status

unmatched-is_actionable :
    (incident : ℕ) (parent : Option ℕ) (evidence : List String) (fs : List Finding)
    → (unmatched_diagnosis incident parent evidence fs).is_actionable ≡ false
unfolding unmatched_diagnosis
unmatched-is_actionable incident parent evidence [] = refl
unmatched-is_actionable incident parent evidence (f ∷ fs) = refl

pub diagnose-first :
    (rules : List DiagnosticRule) (incident : ℕ) (obs : ObservationBundle) (parent : Option ℕ)
    → (diagnose rules incident obs parent).is_actionable
      ≡ (not (is_refused obs) && first_actionable rules obs)
unfolding diagnose is_refused chosen_diagnosis
diagnose-first rules incident obs parent = elim (first_lem rules obs) [
  | inl (gone, off) ↦
      let quiet =
        unmatched-is_actionable incident parent (all_evidence obs.evidence_id_map)
          (findings_of rules obs) in
      ground (arith, gone, off, quiet)
  | inr (r, (rest, here, same)) ↦ ground (arith, here, same)
]

-- The order of the default rules.
pub default_lem :
    (obs : ObservationBundle)
    → first_actionable default_rules obs ≡ (
        if is_stopped obs
        then true
        else if is_dependency_down obs
        then false
        else if is_saturated obs
        then true
        else api_test obs)
unfolding first_actionable default_rules sort_rules insert_rule
default_lem obs = ground (
  arith,
  stopped_rule_lem obs,
  dependency_rule_lem obs,
  cpu_rule_lem obs,
  api_rule_lem obs,
  no_fault_rule_lem obs,
)
