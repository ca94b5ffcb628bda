-- ===== src/Policy/Engine/Gates.antt =====
-- Gates 1 to 9: each passes exactly when the contract's fields for it hold.
use self_healing_agent.Prelude.{
  ℕ, ◌+◌, ◌≤◌, ◌≡◌, ◌≢◌, ◌⊎◌, refl, true, false, Option, none, some, has, arith, ◌↔◌, ltb,
}
use self_healing_agent.Text.{upper_is}
use self_healing_agent.Policy.Schemas.{
  disabled, PolicyRuleSet, Datetime, EvaluationContext, seconds, RuleEvaluationResult,
}
use self_healing_agent.Policy.Rules.{
  unsupported_causes, evaluate_kill_switch, evaluate_emergency_stop, evaluate_prohibited_action,
  evaluate_confidence_and_evidence, evaluate_attempt_budget, evaluate_resource_lock,
  evaluate_cooldown, is_stale, align, same_kind, cooldown_since, cooldown_result, elapsed_below,
}
use self_healing_agent.Policy.Engine.Permitted.{IsFresh, IsCooled}

module _ (ctx : EvaluationContext) (rules : PolicyRuleSet) where
  pub kill_switch_iff :
      ((evaluate_kill_switch ctx rules).passed ≡ true) ↔ (ctx.automation_mode ≢ disabled)
  unfolding evaluate_kill_switch
  kill_switch_iff = (λ h. ground arith, λ h. ground arith)

  pub emergency_stop_iff :
      ((evaluate_emergency_stop ctx rules).passed ≡ true)
      ↔ (has ctx.emergency_stopped_resources ctx.service_name ≡ false)
        × (has ctx.emergency_stopped_resources ctx.container_id ≡ false)
  unfolding evaluate_emergency_stop
  emergency_stop_iff = (λ h. ground arith, λ h. ground arith)

  pub prohibited_action_iff :
      ((evaluate_prohibited_action ctx rules).passed ≡ true)
      ↔ (has rules.allowed_actions ctx.action ≡ true)
        × ((rules.require_low_risk_for_approval ≡ false) ⊎ (upper_is ctx.risk "LOW" ≡ true))
  unfolding evaluate_prohibited_action
  prohibited_action_iff = (λ h. ground arith, λ h. ground arith)

  is_stale_iff : (o : Option ℕ) (limit : ℕ) → (is_stale o limit ≡ false) ↔ IsFresh o limit
  unfolding is_stale
  is_stale_iff none limit = (λ h. tt, λ h. refl)
  is_stale_iff (some age) limit = (λ h. ground arith, λ h. ground arith)

  pub confidence_iff :
      ((evaluate_confidence_and_evidence ctx rules).passed ≡ true)
      ↔ (has unsupported_causes ctx.root_cause ≡ false)
        × IsFresh ctx.evidence_age rules.evidence_freshness_limit_seconds
        × (rules.min_approval_confidence_threshold ≤ ctx.confidence)
  unfolding evaluate_confidence_and_evidence
  confidence_iff =
      let stale = is_stale_iff ctx.evidence_age rules.evidence_freshness_limit_seconds in
      (λ h. ground (arith, stale.0, stale.1), λ h. ground (arith, stale.0, stale.1))

  pub attempt_budget_iff :
      ((evaluate_attempt_budget ctx rules).passed ≡ true) ↔ (ctx.attempts ≤ rules.retry_limit)
  unfolding evaluate_attempt_budget
  attempt_budget_iff = (λ h. ground arith, λ h. ground arith)

  pub resource_lock_iff :
      ((evaluate_resource_lock ctx rules).passed ≡ true) ↔ (ctx.is_resource_locked ≡ false)
  unfolding evaluate_resource_lock
  resource_lock_iff = (λ h. ground arith, λ h. ground arith)

pub aligned_same : (a b : Datetime) → same_kind (align a b) (align b a) ≡ true
unfolding align same_kind
aligned_same a b = ground arith

pub at-align : (a b : Datetime) → (align a b).at ≡ a.at
unfolding align
at-align a b = ground arith

pub elapsed_lem :
    (a b : Datetime) (d : ℕ) → elapsed_below (align a b) (align b a) d ≡ some (ltb b.at (a.at + d))
unfolding elapsed_below
elapsed_lem a b d = rw (aligned_same a b, at-align a b, at-align b a) refl

-- The cooldown gate raises no TypeError, moves no clock, and passes exactly after the cooldown.
cooldown_since_lem :
    (o : Option Datetime) (ctx : EvaluationContext) (rules : PolicyRuleSet)
    → (r : RuleEvaluationResult) × (now : Datetime) × (cooldown_since o ctx rules
        ≡ some (r, record ctx { current_time = now }))
      × (now.at ≡ ctx.current_time.at)
      × ((r.passed ≡ true) ↔ IsCooled o ctx.current_time.at rules.cooldown_seconds)
unfolding cooldown_since
cooldown_since_lem none ctx rules = (_, ctx.current_time, refl, refl, (λ h. tt, λ h. refl))
cooldown_since_lem (some last) ctx rules = (
  cooldown_result (ltb ctx.current_time.at (last.at + seconds rules.cooldown_seconds)),
  align ctx.current_time last,
  rw (elapsed_lem last ctx.current_time (seconds rules.cooldown_seconds), cooldown_since) refl,
  at-align ctx.current_time last,
  (λ h. ground arith, λ h. ground arith),
)

pub cooldown_lem :
    (ctx : EvaluationContext) (rules : PolicyRuleSet)
    → (r : RuleEvaluationResult) × (now : Datetime) × (evaluate_cooldown ctx rules
        ≡ some (r, record ctx { current_time = now }))
      × (now.at ≡ ctx.current_time.at)
      × ((r.passed ≡ true)
          ↔ IsCooled ctx.last_execution_time ctx.current_time.at rules.cooldown_seconds)
unfolding evaluate_cooldown
cooldown_lem ctx rules = cooldown_since_lem ctx.last_execution_time ctx rules
