-- ===== src/Diagnosis/Engine.antt =====
-- deterministic/engine.py: `DeterministicDiagnosisEngine`.
use self_healing_agent.Diagnosis.Rules.{
  no_fault_rule, api_rule, cpu_rule, all_evidence, dependency_rule, container_stopped_rule,
}
use self_healing_agent.Prelude.{
  some, ite, ltb, leb, str_eq, false, if◌then◌else◌, ◌++◌, ◌||◌, true, some_and, [], String, Option,
  Bool, ◌∷◌, ℕ, List,
}
use self_healing_agent.Diagnosis.Schemas.{
  resource_not_found, resource_missing, fallback_not_found, telemetry_stale, conflicting, stale,
  fallback_ambiguous, fallback_stale, ambiguous, telemetry_unavailable, prometheus_unavailable,
  unconfirmed, fallback_insufficient, fallback_telemetry, insufficient_evidence, Escalation,
  not_found, Diagnosis, RuleId, RuleEvaluationResult, ObservationBundle, ContainerStatus, Finding,
  RootCause,
}
pub mod Order
pub mod Contract
pub mod Decided

-- A `DiagnosticRule` as the engine uses it.
pub record DiagnosticRule : Type 0 where
  pub priority : ℕ
  pub evaluate : ObservationBundle → RuleEvaluationResult

-- `list.sort(key=…)` is stable.
unfoldable pub insert_rule : DiagnosticRule → List DiagnosticRule → List DiagnosticRule
insert_rule r [] = r ∷ []
insert_rule r (s ∷ rules) =
    let later = insert_rule r rules in
    if leb r.priority s.priority then r ∷ s ∷ rules else s ∷ later

unfoldable pub sort_rules : List DiagnosticRule → List DiagnosticRule
sort_rules [] = []
sort_rules (r ∷ rules) = insert_rule r (sort_rules rules)

-- `DeterministicDiagnosisEngine()`: the rules that it evaluates, in order.
unfoldable pub default_rules : List DiagnosticRule
default_rules = sort_rules (
    record { priority = 1; evaluate = container_stopped_rule }
    ∷ record { priority = 2; evaluate = dependency_rule }
    ∷ record { priority = 3; evaluate = cpu_rule }
    ∷ record { priority = 4; evaluate = api_rule }
    ∷ record { priority = 5; evaluate = no_fault_rule }
    ∷ [])

-- The three fallbacks before the rules.
abbrev pub refused : ℕ → Option ℕ → List String → RuleId → Finding → Escalation → Diagnosis
refused incident parent evidence rule finding reason = record {
  incident_id = incident;
  root_cause = insufficient_evidence;
  confidence = 0;
  evidence_ids = evidence;
  rule_id = rule;
  contradictory_findings = finding ∷ [];
  escalation_reason = some reason;
  is_actionable = false;
  parent_diagnosis_id = parent;
}

unfoldable pub is_unavailable : ObservationBundle → Bool
is_unavailable obs =
    obs.is_telemetry_unavailable || some_and obs.prometheus (λ c. str_eq c "UNAVAILABLE")

unfoldable pub is_stale : ObservationBundle → Bool
is_stale obs = some_and obs.freshness (λ age. ltb 900000 age)

unfoldable pub is_missing : ContainerStatus → Bool
is_missing not_found = true
is_missing _ = false

-- `all_contradictions` and `matching_results` after the loop over the rules.
unfoldable pub findings_of : List DiagnosticRule → ObservationBundle → List Finding
findings_of [] obs = []
findings_of (r ∷ rules) obs = (r.evaluate obs).contradictory_findings ++ findings_of rules obs

unfoldable pub matches_of : List DiagnosticRule → ObservationBundle → List RuleEvaluationResult
matches_of [] obs = []
matches_of (r ∷ rules) obs =
    let result = r.evaluate obs in
    let others = matches_of rules obs in if result.matched then result ∷ others else others

pub Finding-discrete : Discrete Finding
Finding-discrete = hlevel

unfoldable pub has_finding : Finding → List Finding → Bool
has_finding f [] = false
has_finding f (g ∷ gs) = ite (Finding-discrete f g) true (has_finding f gs)

-- `list(dict.fromkeys(…))`: the first of each, in order; `seen` are those before.
unfoldable pub distinct : List Finding → List Finding → List Finding
distinct seen [] = []
distinct seen (f ∷ fs) =
    let with_it = distinct (f ∷ seen) fs in
    let without = distinct seen fs in if has_finding f seen then without else f ∷ with_it

unfoldable pub or_all : List String → List String → List String
or_all [] evidence = evidence
or_all (e ∷ es) evidence = e ∷ es

unfoldable pub chosen_diagnosis :
    ℕ → Option ℕ → List String → List Finding → RuleEvaluationResult → Diagnosis
chosen_diagnosis incident parent evidence findings chosen = record {
  incident_id = incident;
  root_cause = chosen.root_cause;
  confidence = chosen.confidence;
  evidence_ids = or_all chosen.contributing_evidence_ids evidence;
  rule_id = chosen.rule_id;
  contradictory_findings = distinct [] (chosen.contradictory_findings ++ findings);
  escalation_reason = chosen.escalation_reason;
  is_actionable = chosen.is_actionable;
  parent_diagnosis_id = parent;
}

-- Steps 5 and 6: no rule matched.
unfoldable pub unmatched_diagnosis : ℕ → Option ℕ → List String → List Finding → Diagnosis
unmatched_diagnosis incident parent evidence [] = record {
  incident_id = incident;
  root_cause = insufficient_evidence;
  confidence = 0;
  evidence_ids = evidence;
  rule_id = fallback_insufficient;
  contradictory_findings = [];
  escalation_reason = some unconfirmed;
  is_actionable = false;
  parent_diagnosis_id = parent;
}
unmatched_diagnosis incident parent evidence (f ∷ fs) = record {
  incident_id = incident;
  root_cause = ambiguous;
  confidence = 4000;
  evidence_ids = evidence;
  rule_id = fallback_ambiguous;
  contradictory_findings = f ∷ fs;
  escalation_reason = some conflicting;
  is_actionable = false;
  parent_diagnosis_id = parent;
}

-- `diagnose`
unfoldable pub diagnose : List DiagnosticRule → ℕ → ObservationBundle → Option ℕ → Diagnosis
diagnose rules incident obs parent =
    let evidence = all_evidence obs.evidence_id_map in
    if is_unavailable obs
    then refused incident parent evidence fallback_telemetry prometheus_unavailable
        telemetry_unavailable
    else if is_stale obs
    then refused incident parent evidence fallback_stale stale telemetry_stale
    else if is_missing obs.container_status
    then refused incident parent evidence fallback_not_found resource_missing resource_not_found
    else elim (matches_of rules obs) [
      | [] ↦ unmatched_diagnosis incident parent evidence (findings_of rules obs)
      | chosen ∷ others ↦ chosen_diagnosis incident parent evidence (findings_of rules obs) chosen
    ]
