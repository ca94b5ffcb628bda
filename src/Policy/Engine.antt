-- ===== src/Policy/Engine.antt =====
-- policyengine/engine.py: the ten gates in their order, and the precedence of the outcomes.
pub mod Permitted
pub mod Gates
pub mod Approval
pub mod Outcome
pub mod Bits
pub mod Decisions
use self_healing_agent.Prelude.{
  ◌+◌, Bool, true, false, ◌&&◌, ◌||◌, not, List, [], ◌∷◌, ◌++◌, any, Option, none, some, is_some,
  or_default, if◌then◌else◌,
}
use self_healing_agent.Policy.Schemas.{
  PolicyDecisionOutcome, allow, deny, require_approval, defer, ReasonCode, approval_rejected,
  approval_expired, approval_plan_version_mismatch, approval_content_hash_mismatch,
  unauthorized_approver_role, approval_decision_invalid, approval_required, RuleEvaluationResult,
  PolicyRuleSet, Datetime, EvaluationContext, WaitReason, waiting_for_cooldown, waiting_for_lock,
  awaiting_approval, EvaluatedFacts, PolicyEvaluationDecision, seconds,
}
use self_healing_agent.Policy.Rules.{
  evaluate_kill_switch, evaluate_emergency_stop, evaluate_prohibited_action, evaluate_allowlist,
  evaluate_environment, evaluate_confidence_and_evidence, evaluate_attempt_budget,
  evaluate_cooldown, evaluate_resource_lock, evaluate_approval_requirement, align,
}

pub record PolicyEngine : Type 0 where
  pub rules : PolicyRuleSet

-- `reason_codes.append(r.reason_code)` where the gate failed
abbrev pub code_if_failed : RuleEvaluationResult → List ReasonCode
code_if_failed r = if not r.passed then r.reason_code ∷ [] else []

-- The reason codes of gate 10 that deny.
abbrev pub is_hard_approval_code : ReasonCode → Bool
is_hard_approval_code approval_rejected = true
is_hard_approval_code approval_expired = true
is_hard_approval_code approval_plan_version_mismatch = true
is_hard_approval_code approval_content_hash_mismatch = true
is_hard_approval_code unauthorized_approver_role = true
is_hard_approval_code approval_decision_invalid = true
is_hard_approval_code _ = false

abbrev pub is_approval_required_code : ReasonCode → Bool
is_approval_required_code approval_required = true
is_approval_required_code _ = false

abbrev pub Verdict : Type 0
Verdict = PolicyDecisionOutcome × Option Datetime × Option WaitReason

-- `defer_until`: the end of the cooldown, where an execution is on record
unfoldable pub cooldown_end : EvaluationContext → PolicyRuleSet → Option Datetime
unfolding align
cooldown_end ctx rules = elim ctx.last_execution_time [
  | none ↦ none
  | some last ↦
      let last_time = align last ctx.current_time in
      some (record last_time { at = last_time.at + seconds rules.cooldown_seconds })
]

-- Lines 115 to 126: `hard` is the outcome of gates 1 to 7.
unfoldable pub hard_deny : Bool → RuleEvaluationResult → Bool
hard_deny hard r10 = hard || (not hard && not r10.passed && is_hard_approval_code r10.reason_code)

-- Lines 128 to 148.
unfoldable pub choose :
    EvaluationContext → PolicyRuleSet → Bool → (r8 r9 r10 : RuleEvaluationResult) → Verdict
unfolding cooldown_end
choose ctx rules denied r8 r9 r10 =
    if denied
    then (deny, none, none)
    else if not r8.passed
    then (defer, cooldown_end ctx rules, some waiting_for_cooldown)
    else if not r9.passed
    then (defer, none, some waiting_for_lock)
    else if not r10.passed && is_approval_required_code r10.reason_code
    then (require_approval, none, some awaiting_approval)
    else (allow, none, none)

abbrev pub facts_of : EvaluationContext → EvaluatedFacts
facts_of ctx = record {
  incident_id = ctx.incident_id;
  plan_id = ctx.plan_id;
  plan_version = ctx.plan_version;
  content_hash = ctx.content_hash;
  service_name = ctx.service_name;
  container_id = ctx.container_id;
  environment = ctx.environment;
  action = ctx.action;
  risk = ctx.risk;
  confidence = ctx.confidence;
  root_cause = ctx.root_cause;
  attempts = ctx.attempts;
  retry_limit = ctx.retry_limit;
  automation_mode = ctx.automation_mode;
  is_resource_locked = ctx.is_resource_locked;
  has_approval_grant = is_some ctx.approval_grant;
}

-- The results of the ten gates, in order.
pub record Gated : Type 0 where
  pub r1 : RuleEvaluationResult
  pub r2 : RuleEvaluationResult
  pub r3 : RuleEvaluationResult
  pub r4 : RuleEvaluationResult
  pub r5 : RuleEvaluationResult
  pub r6 : RuleEvaluationResult
  pub r7 : RuleEvaluationResult
  pub r8 : RuleEvaluationResult
  pub r9 : RuleEvaluationResult
  pub r10 : RuleEvaluationResult

abbrev pub rule_results_of : Gated → List RuleEvaluationResult
rule_results_of g = g.r1 ∷ g.r2 ∷ g.r3 ∷ g.r4 ∷ g.r5 ∷ g.r6 ∷ g.r7 ∷ g.r8 ∷ g.r9 ∷ g.r10 ∷ []

-- Gates 6 and 10 leave their code whether they pass or not.
abbrev pub reason_codes_of : Gated → List ReasonCode
reason_codes_of g =
    code_if_failed g.r1
    ++ (code_if_failed g.r2
        ++ (code_if_failed g.r3
            ++ (code_if_failed g.r4
                ++ (code_if_failed g.r5
                    ++ (g.r6.reason_code
                        ∷ (code_if_failed g.r7
                            ++ (code_if_failed g.r8
                                ++ (code_if_failed g.r9 ++ (g.r10.reason_code ∷ [])))))))))

-- `any(not r.passed for r in [r1, r2, r3, r4, r5, r7]) or (not r6.passed)`
unfoldable pub hard_of : Gated → Bool
hard_of g =
    any (λ (r : RuleEvaluationResult). not r.passed) (g.r1 ∷ g.r2 ∷ g.r3 ∷ g.r4 ∷ g.r5 ∷ g.r7 ∷ [])
    || not g.r6.passed

-- Lines 113 to 183, on the results of the gates.
unfoldable pub decide : EvaluationContext → PolicyRuleSet → Gated → PolicyEvaluationDecision
unfolding hard_deny choose
decide ctx rules g =
    let (outcome, until, why) = choose ctx rules (hard_deny (hard_of g) g.r10) g.r8 g.r9 g.r10 in
    record {
      decision = outcome;
      policy_name = rules.name;
      policy_version = rules.version;
      plan_id = ctx.plan_id;
      plan_version = ctx.plan_version;
      content_hash = ctx.content_hash;
      container_id = ctx.container_id;
      binding_generation = ctx.binding_generation;
      evaluated_facts = facts_of ctx;
      rule_results = rule_results_of g;
      reason_codes = reason_codes_of g;
      defer_until = until;
      wait_reason = why;
    }

-- The gates in order, where gates 8 and 10 have answered `r8` and `r10`, and gate 8 left `ctx'`.
abbrev pub gated :
    (ctx ctx' : EvaluationContext) → PolicyRuleSet → (r8 r10 : RuleEvaluationResult) → Gated
gated ctx ctx' rules r8 r10 = record {
  r1 = evaluate_kill_switch ctx rules;
  r2 = evaluate_emergency_stop ctx rules;
  r3 = evaluate_prohibited_action ctx rules;
  r4 = evaluate_allowlist ctx rules;
  r5 = evaluate_environment ctx rules;
  r6 = evaluate_confidence_and_evidence ctx rules;
  r7 = evaluate_attempt_budget ctx rules;
  r8 = r8;
  r9 = evaluate_resource_lock ctx' rules;
  r10 = r10;
}

-- Lines 55 to 111. `none` is a TypeError of Python's datetimes.
unfoldable pub run_gates : EvaluationContext → PolicyRuleSet → Option (Gated × EvaluationContext)
run_gates ctx rules = elim (evaluate_cooldown ctx rules) [
  | none ↦ none
  | some (r8, ctx') ↦ elim (evaluate_approval_requirement ctx' rules) [
    | none ↦ none
    | some r10 ↦ some (gated ctx ctx' rules r8 r10, ctx')
  ]
]

-- `PolicyEngine.evaluate`
unfoldable pub evaluate :
    PolicyEngine → EvaluationContext → Option PolicyRuleSet → Option PolicyEvaluationDecision
unfolding run_gates
evaluate self ctx rules =
    let active_rules = or_default rules self.rules in
    elim (run_gates ctx active_rules) [
      | none ↦ none
      | some (g, ctx') ↦ some (decide ctx' active_rules g)
    ]
