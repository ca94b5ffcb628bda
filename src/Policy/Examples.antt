-- ===== src/Policy/Examples.antt =====
-- Concrete contexts for the policy engine: an incident of the demo service under the default rules.
use self_healing_agent.Prelude.{none, ℕ, true, false, [], ◌∷◌, Option, some}
use self_healing_agent.Policy.Schemas.{
  PolicyDecisionOutcome, PolicyRuleSet, EvaluationContext, Datetime, ApprovalGrant, approval_mode,
  seconds,
}
use self_healing_agent.Text.{upper_is, has_lower, upper, lower, upper_code, lower_code}
use self_healing_agent.Policy.Rules.{
  evaluate_kill_switch, evaluate_emergency_stop, evaluate_prohibited_action, evaluate_allowlist,
  evaluate_environment, evaluate_confidence_and_evidence, is_stale, evaluate_attempt_budget,
  evaluate_cooldown, cooldown_since, elapsed_below, same_kind, align, at_most,
  evaluate_resource_lock, evaluate_approval_requirement, inspect_grant, validate_grant, is_expired,
  hash_differs, version_differs,
}
use self_healing_agent.Policy.Engine.{
  PolicyEngine, evaluate, run_gates, decide, hard_of, hard_deny, choose, cooldown_end,
}

abbrev pub default_rules : PolicyRuleSet
default_rules = record {
  name = "m1_default_policy";
  version = 2;
  auto_approval_confidence_threshold = 8500;
  min_approval_confidence_threshold = 6000;
  retry_limit = 2;
  cooldown_seconds = 600;
  allowed_environments = "local" ∷ [];
  allowed_actions =
      "restart_container" ∷ "inspect_container" ∷ "wait_for_stabilization" ∷ "notify_operator"
      ∷ "open_incident_ticket" ∷ [];
  allowed_targets = "demo-api" ∷ [];
  require_low_risk_for_approval = true;
  evidence_freshness_limit_seconds = 300;
}

abbrev pub engine : PolicyEngine
engine = record { rules = default_rules }

abbrev pub clock : ℕ → Datetime
clock n = record { aware = true; at = seconds n }

-- A grant for version 1 of the plan, valid until second 2800.
abbrev pub grant : ApprovalGrant
grant = record {
  decision = "approve";
  plan_version = some 1;
  content_hash = some "abc";
  expires_at = some (clock 2800);
  approver_role = "approver";
}

abbrev pub stopped_container : Option ApprovalGrant → Option Datetime → EvaluationContext
stopped_container g last = record {
  incident_id = 1;
  plan_id = 7;
  plan_version = 1;
  content_hash = "abc";
  container_id = "0123456789ab";
  binding_generation = 1;
  service_name = "demo-api";
  environment = "local";
  action = "restart_container";
  risk = "low";
  confidence = 9500;
  root_cause = "CONTAINER_STOPPED";
  evidence_age = some (seconds 20);
  attempts = 0;
  retry_limit = 2;
  last_execution_time = last;
  is_resource_locked = false;
  approval_grant = g;
  automation_mode = approval_mode;
  emergency_stopped_resources = [];
  current_time = clock 1000;
}

-- The outcome alone, with all that the engine runs unfolded.
unfoldable pub outcome_of : EvaluationContext → Option PolicyDecisionOutcome
unfolding evaluate run_gates decide hard_of hard_deny choose cooldown_end evaluate_kill_switch
    evaluate_emergency_stop evaluate_prohibited_action evaluate_allowlist evaluate_environment
    evaluate_confidence_and_evidence is_stale evaluate_attempt_budget evaluate_cooldown
    cooldown_since elapsed_below same_kind align at_most evaluate_resource_lock
    evaluate_approval_requirement inspect_grant validate_grant is_expired hash_differs
    version_differs upper_is has_lower upper lower upper_code lower_code
outcome_of ctx = elim (evaluate engine ctx none) [ none ↦ none | some d ↦ some d.decision ]
