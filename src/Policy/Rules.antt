-- ===== src/Policy/Rules.antt =====
-- policyengine/rules: the gates, one function per file of the directory.
use self_healing_agent.Prelude.{
  ℕ, ◌+◌, Bool, true, false, ◌&&◌, ◌||◌, not, List, [], ◌∷◌, Option, none, some, String, ltb, leb,
  ◌==◌, str_eq, has, if◌then◌else◌,
}
use self_healing_agent.Text.{upper_is, has_lower}
use self_healing_agent.Policy.Schemas.{
  AutomationMode, disabled, approval_mode, ReasonCode, global_kill_switch_active,
  kill_switch_inactive, resource_emergency_stop, emergency_stop_inactive, prohibited_action,
  risk_level_exceeded, action_permitted, target_not_allowlisted, target_allowlisted,
  environment_mismatch, environment_allowed, evidence_insufficient_or_ambiguous, evidence_stale,
  confidence_too_low, approval_required_low_confidence, high_confidence_eligible,
  attempt_budget_exhausted, attempt_budget_available, in_cooldown, cooldown_satisfied,
  resource_locked, resource_lock_available, automatic_execution_permitted, approval_required,
  approval_rejected, approval_decision_invalid, approval_plan_version_mismatch,
  approval_content_hash_mismatch, approval_expired, unauthorized_approver_role, approval_valid,
  RuleName, global_kill_switch, resource_emergency_stop_rule, prohibited_action_rule,
  target_allowlist, target_environment, diagnosis_confidence, attempt_budget, resource_cooldown,
  resource_lock_eligibility, approval_requirement, RuleEvaluationResult, PolicyRuleSet, Datetime,
  ApprovalGrant, EvaluationContext, seconds,
}

abbrev pub result : RuleName → Bool → ReasonCode → RuleEvaluationResult
result name ok code = record { rule_name = name; passed = ok; reason_code = code }

abbrev pub is_disabled : AutomationMode → Bool
is_disabled disabled = true
is_disabled _ = false

abbrev pub is_approval_mode : AutomationMode → Bool
is_approval_mode approval_mode = true
is_approval_mode _ = false

-- kill_switch.py
unfoldable pub evaluate_kill_switch : EvaluationContext → PolicyRuleSet → RuleEvaluationResult
evaluate_kill_switch ctx rules =
    let off = is_disabled ctx.automation_mode in
    result global_kill_switch (not off)
      (if off then global_kill_switch_active else kill_switch_inactive)

-- emergency_stop.py
unfoldable pub evaluate_emergency_stop : EvaluationContext → PolicyRuleSet → RuleEvaluationResult
evaluate_emergency_stop ctx rules =
    let stopped =
      has ctx.emergency_stopped_resources ctx.service_name
      || has ctx.emergency_stopped_resources ctx.container_id in
    result resource_emergency_stop_rule (not stopped)
      (if stopped then resource_emergency_stop else emergency_stop_inactive)

-- prohibited_action.py
unfoldable pub evaluate_prohibited_action : EvaluationContext → PolicyRuleSet → RuleEvaluationResult
evaluate_prohibited_action ctx rules =
    if not (has rules.allowed_actions ctx.action)
    then result prohibited_action_rule false prohibited_action
    else if rules.require_low_risk_for_approval && not (upper_is ctx.risk "LOW")
    then result prohibited_action_rule false risk_level_exceeded
    else result prohibited_action_rule true action_permitted

-- allowlist.py
unfoldable pub evaluate_allowlist : EvaluationContext → PolicyRuleSet → RuleEvaluationResult
evaluate_allowlist ctx rules =
    let is_allowlisted = has rules.allowed_targets ctx.service_name in
    result target_allowlist is_allowlisted
      (if is_allowlisted then target_allowlisted else target_not_allowlisted)

-- environment.py
unfoldable pub evaluate_environment : EvaluationContext → PolicyRuleSet → RuleEvaluationResult
evaluate_environment ctx rules =
    let is_allowed = has_lower rules.allowed_environments ctx.environment in
    result target_environment is_allowed
      (if is_allowed then environment_allowed else environment_mismatch)

abbrev pub unsupported_causes : List String
unsupported_causes =
    "AMBIGUOUS" ∷ "INSUFFICIENT_EVIDENCE" ∷ "NO_ACTIVE_FAULT" ∷ "DEPENDENCY_UNAVAILABLE" ∷ "UNKNOWN"
    ∷ []

-- `"evidence_age_seconds" in summary and age > limit`
unfoldable pub is_stale : Option ℕ → ℕ → Bool
is_stale none limit = false
is_stale (some age) limit = ltb (seconds limit) age

-- confidence.py
unfoldable pub evaluate_confidence_and_evidence :
    EvaluationContext → PolicyRuleSet → RuleEvaluationResult
evaluate_confidence_and_evidence ctx rules =
    if has unsupported_causes ctx.root_cause
    then result diagnosis_confidence false evidence_insufficient_or_ambiguous
    else if is_stale ctx.evidence_age rules.evidence_freshness_limit_seconds
    then result diagnosis_confidence false evidence_stale
    else if ltb ctx.confidence rules.min_approval_confidence_threshold
    then result diagnosis_confidence false confidence_too_low
    else if ltb ctx.confidence rules.auto_approval_confidence_threshold
    then result diagnosis_confidence true approval_required_low_confidence
    else result diagnosis_confidence true high_confidence_eligible

-- attempt_budget.py
unfoldable pub evaluate_attempt_budget : EvaluationContext → PolicyRuleSet → RuleEvaluationResult
evaluate_attempt_budget ctx rules =
    let within_budget = ltb ctx.attempts (1 + rules.retry_limit) in
    result attempt_budget within_budget
      (if within_budget then attempt_budget_available else attempt_budget_exhausted)

-- `t.replace(tzinfo=other.tzinfo)` where `t` is naive and `other` is aware
unfoldable pub align : Datetime → Datetime → Datetime
align t other = if not t.aware && other.aware then record t { aware = true } else t

-- `a <= b` and `(b - a) < d` on datetimes; Python raises a TypeError, `none`, where one of the two
-- is aware and the other naive. The elapsed time may be negative, so it is compared by addition.
unfoldable pub same_kind : Datetime → Datetime → Bool
same_kind a b = (a.aware && b.aware) || (not a.aware && not b.aware)

unfoldable pub at_most : Datetime → Datetime → Option Bool
unfolding same_kind
at_most a b = if same_kind a b then some (leb a.at b.at) else none

unfoldable pub elapsed_below : Datetime → Datetime → ℕ → Option Bool
unfolding same_kind
elapsed_below a b d = if same_kind a b then some (ltb b.at (a.at + d)) else none

abbrev pub cooldown_result : Bool → RuleEvaluationResult
cooldown_result true = result resource_cooldown false in_cooldown
cooldown_result false = result resource_cooldown true cooldown_satisfied

-- cooldown.py, after `ctx.last_execution_time` is read. The gate may make `ctx.current_time` aware,
-- so it returns the context too.
unfoldable pub cooldown_since :
    Option Datetime
    → EvaluationContext
    → PolicyRuleSet
    → Option (RuleEvaluationResult × EvaluationContext)
cooldown_since none ctx rules = some (result resource_cooldown true cooldown_satisfied, ctx)
cooldown_since (some last) ctx rules =
    let last_time = align last ctx.current_time in
    let ctx' : EvaluationContext = record ctx { current_time = align ctx.current_time last } in
    elim (elapsed_below last_time ctx'.current_time (seconds rules.cooldown_seconds)) [
      | none ↦ none
      | some early ↦ some (cooldown_result early, ctx')
    ]

unfoldable pub evaluate_cooldown :
    EvaluationContext → PolicyRuleSet → Option (RuleEvaluationResult × EvaluationContext)
unfolding cooldown_since
evaluate_cooldown ctx rules = cooldown_since ctx.last_execution_time ctx rules

-- lock.py
unfoldable pub evaluate_resource_lock : EvaluationContext → PolicyRuleSet → RuleEvaluationResult
evaluate_resource_lock ctx rules =
    if ctx.is_resource_locked
    then result resource_lock_eligibility false resource_locked
    else result resource_lock_eligibility true resource_lock_available

-- `grant_hash and grant_hash != ctx.content_hash`
unfoldable pub hash_differs : Option String → String → Bool
hash_differs none h = false
hash_differs (some g) h = not (str_eq g "") && not (str_eq g h)

-- `grant_plan_version != ctx.plan_version`
unfoldable pub version_differs : Option ℕ → ℕ → Bool
version_differs none v = true
version_differs (some g) v = not (g == v)

-- `expires_at and expires_at <= curr_time`, after the alignment of the two
unfoldable pub is_expired : Option Datetime → Datetime → Option Bool
unfolding align at_most
is_expired none now = some false
is_expired (some e) now = at_most (align e now) (align now e)

abbrev pub approver_roles : List String
approver_roles = "approver" ∷ "admin" ∷ []

abbrev pub grant_outcome : Bool → String → RuleEvaluationResult
grant_outcome true role = result approval_requirement false approval_expired
grant_outcome false role =
    if not (has approver_roles role)
    then result approval_requirement false unauthorized_approver_role
    else result approval_requirement true approval_valid

-- The checks of an existing grant.
unfoldable pub validate_grant : ApprovalGrant → EvaluationContext → Option RuleEvaluationResult
validate_grant grant ctx =
    if upper_is grant.decision "REJECT"
    then some (result approval_requirement false approval_rejected)
    else if not (upper_is grant.decision "APPROVE")
    then some (result approval_requirement false approval_decision_invalid)
    else if version_differs grant.plan_version ctx.plan_version
    then some (result approval_requirement false approval_plan_version_mismatch)
    else if hash_differs grant.content_hash ctx.content_hash
    then some (result approval_requirement false approval_content_hash_mismatch)
    else elim (is_expired grant.expires_at ctx.current_time) [
      | none ↦ none
      | some expired ↦ some (grant_outcome expired grant.approver_role)
    ]

-- The inspection of `ctx.approval_grant`, once an approval is required.
unfoldable pub inspect_grant :
    Option ApprovalGrant → EvaluationContext → Option RuleEvaluationResult
unfolding validate_grant
inspect_grant none ctx = some (result approval_requirement false approval_required)
inspect_grant (some grant) ctx = validate_grant grant ctx

-- approval.py
unfoldable pub evaluate_approval_requirement :
    EvaluationContext → PolicyRuleSet → Option RuleEvaluationResult
unfolding inspect_grant
evaluate_approval_requirement ctx rules =
    let requires_approval =
      is_approval_mode ctx.automation_mode
      || ltb ctx.confidence rules.auto_approval_confidence_threshold in
    if not requires_approval
    then some (result approval_requirement true automatic_execution_permitted)
    else inspect_grant ctx.approval_grant ctx
