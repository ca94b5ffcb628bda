-- ===== src/Policy/Schemas.antt =====
-- schemas/models.py of the policy engine. A confidence is counted in ten-thousandths, a time and an
-- age in microseconds; the limits of a rule set stay whole seconds. Identifiers are numbers.
-- `observed_value`, `threshold` and `message` of a rule result are text for a reader, read by no
-- code, and are left out.
use self_healing_agent.Prelude.{ℕ, ◌*◌, Bool, List, Option, String}

pub data PolicyDecisionOutcome : Type 0 where
  allow deny require_approval defer : PolicyDecisionOutcome

pub data AutomationMode : Type 0 where
  disabled approval_mode automatic : AutomationMode

-- The `reason_code` strings.
pub data ReasonCode : Type 0 where
  global_kill_switch_active kill_switch_inactive : ReasonCode
  resource_emergency_stop emergency_stop_inactive : ReasonCode
  prohibited_action risk_level_exceeded action_permitted : ReasonCode
  target_not_allowlisted target_allowlisted : ReasonCode
  environment_mismatch environment_allowed : ReasonCode
  evidence_insufficient_or_ambiguous evidence_stale confidence_too_low : ReasonCode
  approval_required_low_confidence high_confidence_eligible : ReasonCode
  attempt_budget_exhausted attempt_budget_available : ReasonCode
  in_cooldown cooldown_satisfied : ReasonCode
  resource_locked resource_lock_available : ReasonCode
  automatic_execution_permitted approval_required : ReasonCode
  approval_rejected approval_decision_invalid approval_plan_version_mismatch : ReasonCode
  approval_content_hash_mismatch approval_expired unauthorized_approver_role : ReasonCode
  approval_valid : ReasonCode

-- The `rule_name` strings.
pub data RuleName : Type 0 where
  global_kill_switch resource_emergency_stop_rule prohibited_action_rule : RuleName
  target_allowlist target_environment diagnosis_confidence attempt_budget : RuleName
  resource_cooldown resource_lock_eligibility approval_requirement : RuleName

pub record RuleEvaluationResult : Type 0 where
  pub rule_name : RuleName
  pub passed : Bool
  pub reason_code : ReasonCode

pub record PolicyRuleSet : Type 0 where
  pub name : String
  pub version : ℕ
  pub auto_approval_confidence_threshold : ℕ
  pub min_approval_confidence_threshold : ℕ
  pub retry_limit : ℕ
  pub cooldown_seconds : ℕ
  pub allowed_environments : List String
  pub allowed_actions : List String
  pub allowed_targets : List String
  pub require_low_risk_for_approval : Bool
  pub evidence_freshness_limit_seconds : ℕ

-- A `datetime`: aware or naive, and its instant. Every aware value of the program is in UTC, and a
-- naive one is read as UTC, so `replace(tzinfo=…)` keeps the instant.
pub record Datetime : Type 0 where
  pub aware : Bool
  pub at : ℕ

-- The keys of the `approval_grant` dictionary that the gates read, with the default of a missing
-- key: "" for `decision` and `approver_role`, and None for the others.
pub record ApprovalGrant : Type 0 where
  pub decision : String
  pub plan_version : Option ℕ
  pub content_hash : Option String
  pub expires_at : Option Datetime
  pub approver_role : String

pub record EvaluationContext : Type 0 where
  pub incident_id : ℕ
  pub plan_id : ℕ
  pub plan_version : ℕ
  pub content_hash : String
  pub container_id : String
  pub binding_generation : ℕ
  pub service_name : String
  pub environment : String
  pub action : String
  pub risk : String
  pub confidence : ℕ
  pub root_cause : String
  pub evidence_age : Option ℕ  -- evidence_summary["evidence_age_seconds"]
  pub attempts : ℕ
  pub retry_limit : ℕ
  pub last_execution_time : Option Datetime
  pub is_resource_locked : Bool
  pub approval_grant : Option ApprovalGrant
  pub automation_mode : AutomationMode
  pub emergency_stopped_resources : List String
  pub current_time : Datetime

pub data WaitReason : Type 0 where
  waiting_for_cooldown waiting_for_lock awaiting_approval : WaitReason

pub record EvaluatedFacts : Type 0 where
  pub incident_id : ℕ
  pub plan_id : ℕ
  pub plan_version : ℕ
  pub content_hash : String
  pub service_name : String
  pub container_id : String
  pub environment : String
  pub action : String
  pub risk : String
  pub confidence : ℕ
  pub root_cause : String
  pub attempts : ℕ
  pub retry_limit : ℕ
  pub automation_mode : AutomationMode
  pub is_resource_locked : Bool
  pub has_approval_grant : Bool

pub record PolicyEvaluationDecision : Type 0 where
  pub decision : PolicyDecisionOutcome
  pub policy_name : String
  pub policy_version : ℕ
  pub plan_id : ℕ
  pub plan_version : ℕ
  pub content_hash : String
  pub container_id : String
  pub binding_generation : ℕ
  pub evaluated_facts : EvaluatedFacts
  pub rule_results : List RuleEvaluationResult
  pub reason_codes : List ReasonCode
  pub defer_until : Option Datetime
  pub wait_reason : Option WaitReason

-- `timedelta(seconds=n)`
abbrev pub seconds : ℕ → ℕ
seconds n = n * 1000000
