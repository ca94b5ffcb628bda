-- ===== src/Diagnosis/Rules.antt =====
-- deterministic/rules: the five rules, one function per class.
use self_healing_agent.Text.{contains, lower_contains}
use self_healing_agent.Prelude.{
  some, none, [], ◌∷◌, none_or, not, leb, ◌==◌, ltb, any, false, has, if◌then◌else◌, ◌&&◌, true,
  ◌||◌, some_and, Bool, String, ℕ, List,
}
use self_healing_agent.Diagnosis.Schemas.{
  running, dependency_precedes, cpu_precedes, alert_without_cpu, dependency_down, crash_precedes,
  ready_and_responsive, cpu_saturation, no_fault, running_and_ready, no_active_fault, rule_002,
  dependency_unavailable, container_stopped, api_unresponsive, dead, rule_003, rule_001, rule_005,
  rule_004, exited, Escalation, RuleEvaluationResult, Finding, ObservationBundle, RuleId,
  ContainerStatus, RootCause,
}

unfoldable pub is_up : ContainerStatus → Bool
is_up running = true
is_up _ = false

-- `container_status in ("exited", "dead")`
unfoldable pub has_stopped : ContainerStatus → Bool
has_stopped exited = true
has_stopped dead = true
has_stopped _ = false

-- The evidence whose signal name contains one of the words.
unfoldable pub evidence_for : List String → List (String × String) → List String
evidence_for words [] = []
evidence_for words ((k, eid) ∷ rest) =
    let others = evidence_for words rest in
    if any (λ word. contains word k) words then eid ∷ others else others

unfoldable pub all_evidence : List (String × String) → List String
all_evidence [] = []
all_evidence ((k, eid) ∷ rest) = eid ∷ all_evidence rest

-- A result that does not match.
abbrev pub unmatched : RuleId → RootCause → List Finding → RuleEvaluationResult
unmatched rule cause findings = record {
  rule_id = rule;
  matched = false;
  confidence = 0;
  root_cause = cause;
  is_actionable = false;
  contributing_evidence_ids = [];
  contradictory_findings = findings;
  escalation_reason = none;
}

-- A match that a restart may repair.
abbrev pub candidate : RuleId → RootCause → ℕ → List String → RuleEvaluationResult
candidate rule cause confidence evidence = record {
  rule_id = rule;
  matched = true;
  confidence = confidence;
  root_cause = cause;
  is_actionable = true;
  contributing_evidence_ids = evidence;
  contradictory_findings = [];
  escalation_reason = none;
}

-- A match that is escalated.
abbrev pub escalated : RuleId → RootCause → ℕ → List String → Escalation → RuleEvaluationResult
escalated rule cause confidence evidence reason = record {
  rule_id = rule;
  matched = true;
  confidence = confidence;
  root_cause = cause;
  is_actionable = false;
  contributing_evidence_ids = evidence;
  contradictory_findings = [];
  escalation_reason = some reason;
}

unfoldable pub is_up_and_ready : ObservationBundle → Bool
is_up_and_ready obs =
    is_up obs.container_status
    && some_and obs.up_metric (λ u. u == 10000)
    && some_and obs.latest_readiness_code (λ c. c == 200)

-- The match condition of rule 1.
unfoldable pub is_stopped : ObservationBundle → Bool
is_stopped obs =
    has_stopped obs.container_status
    || (some_and obs.up_metric (λ u. u == 0) && not (is_up obs.container_status))

-- `ContainerStoppedRule.evaluate`
unfoldable pub container_stopped_rule : ObservationBundle → RuleEvaluationResult
container_stopped_rule obs =
    if is_up_and_ready obs
    then unmatched rule_001 container_stopped (running_and_ready ∷ [])
    else if is_stopped obs
    then candidate rule_001 container_stopped
        (if not (has obs.firing_alerts "ContainerDown") then 9000 else 9500)
        (evidence_for ("docker:inspect" ∷ "prometheus:up" ∷ "prometheus:active_alerts" ∷ [])
          obs.evidence_id_map)
    else unmatched rule_001 container_stopped []

-- `obs.redis_connected is False`
unfoldable pub redis_off : ObservationBundle → Bool
redis_off obs = some_and obs.redis_connected not

-- `obs.db_connections_active is not None and obs.db_connections_active >= 8`
unfoldable pub pool_full : ObservationBundle → Bool
pool_full obs = some_and obs.db_connections_active (λ n. leb 8 n)

-- The match condition of rule 4.
unfoldable pub is_dependency_down : ObservationBundle → Bool
is_dependency_down obs =
    (redis_off obs || has obs.firing_alerts "RedisUnreachable")
    || (pool_full obs || has obs.firing_alerts "PostgresPoolExhausted")
    || any
        (λ line.
          lower_contains "redis" line
          || lower_contains "postgres" line
          || lower_contains "connection pool" line)
        obs.recent_log_errors

-- `DependencyUnavailableRule.evaluate`
unfoldable pub dependency_rule : ObservationBundle → RuleEvaluationResult
dependency_rule obs =
    if is_dependency_down obs
    then escalated rule_004 dependency_unavailable 9000
        (evidence_for
          ("prometheus:redis_connected" ∷ "prometheus:db_connections" ∷ "loki:query"
            ∷ "prometheus:active_alerts" ∷ [])
          obs.evidence_id_map)
        dependency_down
    else unmatched rule_004 dependency_unavailable []

-- The alert claims a saturation that the container's own processor time denies.
unfoldable pub is_foreign_cpu : ObservationBundle → Bool
is_foreign_cpu obs =
    has obs.firing_alerts "HighCpuSaturation" && some_and obs.normalized_cpu (λ c. ltb c 5000)

-- The match condition of rule 2.
unfoldable pub is_saturated : ObservationBundle → Bool
is_saturated obs =
    is_up obs.container_status
    && (some_and obs.normalized_cpu (λ c. leb 7500 c)
        || (has obs.firing_alerts "HighCpuSaturation"
            && some_and obs.normalized_cpu (λ c. leb 7000 c)))

-- `CpuSaturationRule.evaluate`
unfoldable pub cpu_rule : ObservationBundle → RuleEvaluationResult
cpu_rule obs =
    if not (is_up obs.container_status) && has_stopped obs.container_status
    then unmatched rule_002 cpu_saturation (crash_precedes ∷ [])
    else if is_foreign_cpu obs
    then unmatched rule_002 cpu_saturation (alert_without_cpu ∷ [])
    else if is_saturated obs
    then candidate rule_002 cpu_saturation
        (if has obs.firing_alerts "HighCpuSaturation" then 9000 else 8500)
        (evidence_for
          ("prometheus:cpu_rate" ∷ "prometheus:process_cpu" ∷ "prometheus:active_alerts" ∷ [])
          obs.evidence_id_map)
    else unmatched rule_002 cpu_saturation []

unfoldable pub is_responsive : ObservationBundle → Bool
is_responsive obs =
    some_and obs.readiness_success_ratio (λ r. leb 10000 r)
    && some_and obs.latest_readiness_code (λ c. c == 200)

unfoldable pub readiness_failed : ObservationBundle → Bool
readiness_failed obs =
    some_and obs.readiness_success_ratio (λ r. ltb r 5000)
    || some_and obs.latest_readiness_code (λ c. not (c == 200))
    || has obs.firing_alerts "ApiUnresponsive"

-- `ApiUnresponsiveRule.evaluate`
unfoldable pub api_rule : ObservationBundle → RuleEvaluationResult
api_rule obs =
    if is_responsive obs
    then unmatched rule_003 api_unresponsive (ready_and_responsive ∷ [])
    else if some_and obs.normalized_cpu (λ c. leb 7500 c)
    then unmatched rule_003 api_unresponsive (cpu_precedes ∷ [])
    else if redis_off obs || pool_full obs
    then unmatched rule_003 api_unresponsive (dependency_precedes ∷ [])
    else if is_up obs.container_status && readiness_failed obs
    then candidate rule_003 api_unresponsive
        (if has obs.firing_alerts "ApiUnresponsive" then 9000 else 8500)
        (evidence_for
          ("prometheus:probe_success" ∷ "docker:inspect" ∷ "prometheus:active_alerts" ∷ [])
          obs.evidence_id_map)
    else unmatched rule_003 api_unresponsive []

-- The match condition of rule 5.
unfoldable pub is_healthy : ObservationBundle → Bool
is_healthy obs =
    is_up obs.container_status
    && none_or obs.up_metric (λ u. leb 10000 u)
    && (none_or obs.readiness_success_ratio (λ r. leb 10000 r)
        && none_or obs.latest_readiness_code (λ c. c == 200))
    && none_or obs.normalized_cpu (λ c. ltb c 5000)
    && (not (redis_off obs) && none_or obs.db_connections_active (λ n. ltb n 8))

-- `NoActiveFaultRule.evaluate`
unfoldable pub no_fault_rule : ObservationBundle → RuleEvaluationResult
no_fault_rule obs =
    if is_healthy obs
    then escalated rule_005 no_active_fault 9500 (all_evidence obs.evidence_id_map) no_fault
    else unmatched rule_005 no_active_fault []
