-- ===== src/Diagnosis/Engine/Decided.antt =====
-- What every diagnosis of the default rules says, actionable or not.
use self_healing_agent.Diagnosis.Schemas.{
  api_unresponsive, cpu_saturation, Finding, Escalation, container_stopped, ObservationBundle,
  Diagnosis, RuleEvaluationResult, RootCause,
}
use self_healing_agent.Prelude.{
  inr, inl, Bool-cases, sym, subst, if◌then◌else◌, All, some, false, ◌≤◌, refl, ◌⊎◌, none, arith,
  [], true, ◌∷◌, has, String, Option, ◌≡◌, List, Bool, ℕ,
}
use self_healing_agent.Diagnosis.Rules.{
  all_evidence, dependency_rule, no_fault_rule, cpu_rule, evidence_for, api_rule,
  container_stopped_rule,
}
use self_healing_agent.Diagnosis.Engine.{
  is_missing, is_stale, is_unavailable, DiagnosticRule, findings_of, or_all, insert_rule,
  sort_rules, chosen_diagnosis, unmatched_diagnosis, diagnose, default_rules, matches_of,
}

-- A cause that a restart may repair.
abbrev pub RestartCause : RootCause → Type 0
RestartCause cause =
    (cause ≡ container_stopped) ⊎ ((cause ≡ cpu_saturation) ⊎ (cause ≡ api_unresponsive))

-- A diagnosis names a repairable cause with confidence, or says why it is escalated.
abbrev pub Decision : Bool → RootCause → ℕ → Option Escalation → Type 0
Decision is_actionable cause confidence reason =
    ((is_actionable ≡ true)
      × (reason ≡ none)
      × (8500 ≤ confidence)
      × (confidence ≤ 9500)
      × RestartCause cause)
    ⊎ ((is_actionable ≡ false)
        × ((e : Escalation) × (reason ≡ some e))
        × (confidence ≤ 9500)
        × (¬ RestartCause cause))

abbrev pub Cites : List String → ObservationBundle → Type 0
Cites ids obs = (e : String) → has ids e ≡ true → has (all_evidence obs.evidence_id_map) e ≡ true

abbrev pub Decided : Diagnosis → Type 0
Decided d = Decision d.is_actionable d.root_cause d.confidence d.escalation_reason

abbrev RuleDecided : RuleEvaluationResult → ObservationBundle → Type 0
RuleDecided r obs =
    Decision r.is_actionable r.root_cause r.confidence r.escalation_reason
    × Cites r.contributing_evidence_ids obs

Cites-evidence_for :
    (words : List String) (m : List (String × String)) (e : String)
    → has (evidence_for words m) e ≡ true
    → has (all_evidence m) e ≡ true
unfolding evidence_for all_evidence
Cites-evidence_for words [] e h = h
Cites-evidence_for words ((k, x) ∷ m) e h =
    let later = Cites-evidence_for words m e in ground (arith, h, later)

stopped-RuleDecided :
    (obs : ObservationBundle)
    → (container_stopped_rule obs).matched ≡ true
    → RuleDecided (container_stopped_rule obs) obs
unfolding container_stopped_rule
stopped-RuleDecided obs h = (
  ground (arith, h),
  λ e cited.
      let known =
        Cites-evidence_for ("docker:inspect" ∷ "prometheus:up" ∷ "prometheus:active_alerts" ∷ [])
          obs.evidence_id_map e in
      ground (arith, h, known, cited),
)

dependency-RuleDecided :
    (obs : ObservationBundle)
    → (dependency_rule obs).matched ≡ true
    → RuleDecided (dependency_rule obs) obs
unfolding dependency_rule
dependency-RuleDecided obs h = (
  ground (arith, h),
  λ e cited.
      let known =
        Cites-evidence_for
          ("prometheus:redis_connected" ∷ "prometheus:db_connections" ∷ "loki:query"
            ∷ "prometheus:active_alerts" ∷ [])
          obs.evidence_id_map e in
      ground (arith, h, known, cited),
)

cpu-RuleDecided :
    (obs : ObservationBundle) → (cpu_rule obs).matched ≡ true → RuleDecided (cpu_rule obs) obs
unfolding cpu_rule
cpu-RuleDecided obs h = (
  ground (arith, h),
  λ e cited.
      let known =
        Cites-evidence_for
          ("prometheus:cpu_rate" ∷ "prometheus:process_cpu" ∷ "prometheus:active_alerts" ∷ [])
          obs.evidence_id_map e in
      ground (arith, h, known, cited),
)

api-RuleDecided :
    (obs : ObservationBundle) → (api_rule obs).matched ≡ true → RuleDecided (api_rule obs) obs
unfolding api_rule
api-RuleDecided obs h = (
  ground (arith, h),
  λ e cited.
      let known =
        Cites-evidence_for
          ("prometheus:probe_success" ∷ "docker:inspect" ∷ "prometheus:active_alerts" ∷ [])
          obs.evidence_id_map e in
      ground (arith, h, known, cited),
)

no_fault-RuleDecided :
    (obs : ObservationBundle)
    → (no_fault_rule obs).matched ≡ true
    → RuleDecided (no_fault_rule obs) obs
unfolding no_fault_rule
no_fault-RuleDecided obs h = (ground (arith, h), λ e cited. ground (arith, h, cited))

unmatched-Decided :
    (incident : ℕ) (parent : Option ℕ) (evidence : List String) (fs : List Finding)
    → Decided (unmatched_diagnosis incident parent evidence fs)
      × ((unmatched_diagnosis incident parent evidence fs).evidence_ids ≡ evidence)
unfolding unmatched_diagnosis
unmatched-Decided incident parent evidence [] = (ground arith, refl)
unmatched-Decided incident parent evidence (f ∷ fs) = (ground arith, refl)

chosen-Decided :
    (incident : ℕ) (parent : Option ℕ) (obs : ObservationBundle) (fs : List Finding)
    (r : RuleEvaluationResult)
    → RuleDecided r obs
    → let d = chosen_diagnosis incident parent (all_evidence obs.evidence_id_map) fs r in
      Decided d × Cites d.evidence_ids obs
unfolding chosen_diagnosis or_all
chosen-Decided incident parent obs fs r (decided, cited) = (
  decided,
  elim r.contributing_evidence_ids
        as (λ ids. Cites ids obs → Cites (or_all ids (all_evidence obs.evidence_id_map)) obs) [
          | [] ↦ (λ c e h. h)
          | i ∷ ids ↦ (λ c. c)
        ]
      cited,
)

abbrev MatchDecided : ObservationBundle → DiagnosticRule → Type 0
MatchDecided obs rule = (rule.evaluate obs).matched ≡ true → RuleDecided (rule.evaluate obs) obs

first-RuleDecided :
    (rules : List DiagnosticRule) (obs : ObservationBundle)
    → All (MatchDecided obs) rules
    → (r : RuleEvaluationResult) (rest : List RuleEvaluationResult)
    → matches_of rules obs ≡ r ∷ rest
    → RuleDecided r obs
unfolding matches_of
first-RuleDecided [] obs all r rest h = absurd (ground (arith, h))
first-RuleDecided (rule ∷ rules) obs (this, all) r rest h =
    elim (Bool-cases (rule.evaluate obs).matched) [
      | inl yes_match ↦
          let same : rule.evaluate obs ≡ r = ground (arith, h, yes_match) in
          subst (λ x. RuleDecided x obs) same (this yes_match)
      | inr no_match ↦ first-RuleDecided rules obs all r rest (ground (arith, h, no_match))
    ]

default-MatchDecided : (obs : ObservationBundle) → All (MatchDecided obs) default_rules
unfolding default_rules sort_rules insert_rule
default-MatchDecided obs = (
  stopped-RuleDecided obs,
  (
    dependency-RuleDecided obs,
    (cpu-RuleDecided obs, (api-RuleDecided obs, (no_fault-RuleDecided obs, tt))),
  ),
)

abbrev Sound : ObservationBundle → Diagnosis → Type 0
Sound obs d = Decided d × Cites d.evidence_ids obs

either {ℓ κ} :
    {A : Type ℓ} (P : A → Type κ) (b : Bool) {x y : A} → P x → P y → P (if b then x else y)
either P true p q = p
either P false p q = q

unmatched-Sound :
    (incident : ℕ) (parent : Option ℕ) (obs : ObservationBundle) (fs : List Finding)
    → Sound obs (unmatched_diagnosis incident parent (all_evidence obs.evidence_id_map) fs)
unmatched-Sound incident parent obs fs =
    let (decided, same) = unmatched-Decided incident parent (all_evidence obs.evidence_id_map) fs in
    (decided, subst (λ ids. Cites ids obs) (sym same) (λ e h. h))

rules-Sound :
    (incident : ℕ) (obs : ObservationBundle) (parent : Option ℕ) (found : List RuleEvaluationResult)
    → matches_of default_rules obs ≡ found
    → Sound obs (elim found [
      | [] ↦
          unmatched_diagnosis incident parent
            (all_evidence obs.evidence_id_map)
            (findings_of default_rules obs)
      | chosen ∷ others ↦
          chosen_diagnosis incident parent
            (all_evidence obs.evidence_id_map)
            (findings_of default_rules obs)
            chosen
    ])
rules-Sound incident obs parent [] h =
    unmatched-Sound incident parent obs (findings_of default_rules obs)
rules-Sound incident obs parent (r ∷ rest) h =
    chosen-Decided incident parent obs (findings_of default_rules obs) r
      (first-RuleDecided default_rules obs (default-MatchDecided obs) r rest h)

-- Every diagnosis of the default rules either is actionable, names a cause that a restart may repair
-- with a confidence between 0.85 and 0.95 and no reason to escalate, or is not actionable, names
-- another cause, and says why it is escalated; the evidence that it cites is in the bundle.
pub diagnose-Decided :
    (incident : ℕ) (obs : ObservationBundle) (parent : Option ℕ)
    → Decided (diagnose default_rules incident obs parent)
      × Cites (diagnose default_rules incident obs parent).evidence_ids obs
unfolding diagnose
diagnose-Decided incident obs parent =
    either (Sound obs) (is_unavailable obs) (ground arith, λ e h. h)
      (either (Sound obs) (is_stale obs) (ground arith, λ e h. h)
        (either (Sound obs) (is_missing obs.container_status) (ground arith, λ e h. h)
          (rules-Sound incident obs parent (matches_of default_rules obs) refl)))
