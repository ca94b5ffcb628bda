-- ===== src/Diagnosis/Schemas.antt =====
-- schemas.py and sharedmodels/diagnosis.py.
use self_healing_agent.Prelude.{String, List, Bool, Option, ℕ}

pub data RootCause : Type 0 where
  container_stopped cpu_saturation api_unresponsive dependency_unavailable : RootCause
  insufficient_evidence no_active_fault ambiguous : RootCause

-- `container_status`; every text that no code compares is `other`.
pub data ContainerStatus : Type 0 where
  running exited dead not_found other : ContainerStatus

-- The texts of `contradictory_findings`, each by the place that writes it.
pub data Finding : Type 0 where
  running_and_ready crash_precedes alert_without_cpu ready_and_responsive : Finding
  cpu_precedes dependency_precedes prometheus_unavailable stale resource_missing : Finding

-- The texts of `escalation_reason`.
pub data Escalation : Type 0 where
  telemetry_unavailable telemetry_stale resource_not_found dependency_down : Escalation
  no_fault conflicting unconfirmed : Escalation

pub data RuleId : Type 0 where
  rule_001 rule_002 rule_003 rule_004 rule_005 : RuleId
  fallback_telemetry fallback_stale fallback_not_found fallback_ambiguous fallback_insufficient :
      RuleId

-- A default that the source leaves to the model is written out by the rule.
pub record RuleEvaluationResult : Type 0 where
  pub rule_id : RuleId
  pub matched : Bool
  pub confidence : ℕ
  pub root_cause : RootCause
  pub is_actionable : Bool
  pub contributing_evidence_ids : List String
  pub contradictory_findings : List Finding
  pub escalation_reason : Option Escalation

-- The observations that a rule or the engine reads. `prometheus` is the entry of `completeness`, and
-- `evidence_id_map` the pairs of a signal and its evidence.
pub record ObservationBundle : Type 0 where
  pub container_status : ContainerStatus
  pub up_metric : Option ℕ
  pub normalized_cpu : Option ℕ
  pub readiness_success_ratio : Option ℕ
  pub latest_readiness_code : Option ℕ
  pub firing_alerts : List String
  pub redis_connected : Option Bool
  pub db_connections_active : Option ℕ
  pub recent_log_errors : List String
  pub evidence_id_map : List (String × String)
  pub prometheus : Option String
  pub freshness : Option ℕ
  pub is_telemetry_unavailable : Bool

pub record Diagnosis : Type 0 where
  pub incident_id : ℕ
  pub root_cause : RootCause
  pub confidence : ℕ
  pub evidence_ids : List String
  pub rule_id : RuleId
  pub contradictory_findings : List Finding
  pub escalation_reason : Option Escalation
  pub is_actionable : Bool
  pub parent_diagnosis_id : Option ℕ
