-- ===== src/Policy/Engine/Permitted.antt =====
-- What a plan must satisfy to be executed, said without the gates: the safety contract of
-- engine.py and rules/, field by field.
use self_healing_agent.Prelude.{
  ℕ, ◌+◌, ◌≤◌, ◌<◌, ◌≡◌, ◌≢◌, ◌⊎◌, true, false, Option, none, some, String, has,
}
use self_healing_agent.Text.{upper_is, has_lower}
use self_healing_agent.Policy.Schemas.{
  disabled, approval_mode, PolicyRuleSet, Datetime, ApprovalGrant, EvaluationContext, seconds,
}
use self_healing_agent.Policy.Rules.{unsupported_causes, approver_roles}

-- The evidence is no older than the limit, if its age is known.
abbrev pub IsFresh : Option ℕ → ℕ → Type 0
IsFresh none limit = Unit
IsFresh (some age) limit = age ≤ seconds limit

-- At `now`, `d` seconds have passed since the last execution, if there was one.
abbrev pub IsCooled : Option Datetime → ℕ → ℕ → Type 0
IsCooled none now d = Unit
IsCooled (some last) now d = last.at + seconds d ≤ now

abbrev pub Unexpired : Option Datetime → ℕ → Type 0
Unexpired none now = Unit
Unexpired (some e) now = now < e.at

abbrev pub BindsVersion : Option ℕ → ℕ → Type 0
BindsVersion none v = ⊥
BindsVersion (some g) v = g ≡ v

-- A grant that names no content hash fits every plan.
abbrev pub BindsHash : Option String → String → Type 0
BindsHash none h = Unit
BindsHash (some g) h = (g ≡ "") ⊎ (g ≡ h)

pub record IsValidGrant (g : ApprovalGrant) (ctx : EvaluationContext) : Type 0 where
  pub not_rejected : upper_is g.decision "REJECT" ≡ false
  pub approves : upper_is g.decision "APPROVE" ≡ true
  pub binds_version : BindsVersion g.plan_version ctx.plan_version
  pub binds_hash : BindsHash g.content_hash ctx.content_hash
  pub unexpired : Unexpired g.expires_at ctx.current_time.at
  pub by_approver : has approver_roles g.approver_role ≡ true

abbrev pub HoldsGrant : Option ApprovalGrant → EvaluationContext → Type 0
HoldsGrant none ctx = ⊥
HoldsGrant (some g) ctx = IsValidGrant g ctx

pub record IsUnattended (ctx : EvaluationContext) (rules : PolicyRuleSet) : Type 0 where
  pub mode : ctx.automation_mode ≢ approval_mode
  pub confident : rules.auto_approval_confidence_threshold ≤ ctx.confidence

-- What must hold whatever the time, the lock and the approvals are.
pub record IsEligible (ctx : EvaluationContext) (rules : PolicyRuleSet) : Type 0 where
  pub not_disabled : ctx.automation_mode ≢ disabled
  pub service_not_stopped : has ctx.emergency_stopped_resources ctx.service_name ≡ false
  pub container_not_stopped : has ctx.emergency_stopped_resources ctx.container_id ≡ false
  pub action_listed : has rules.allowed_actions ctx.action ≡ true
  pub low_risk : (rules.require_low_risk_for_approval ≡ false) ⊎ (upper_is ctx.risk "LOW" ≡ true)
  pub target_listed : has rules.allowed_targets ctx.service_name ≡ true
  pub environment_listed : has_lower rules.allowed_environments ctx.environment ≡ true
  pub cause_supported : has unsupported_causes ctx.root_cause ≡ false
  pub fresh : IsFresh ctx.evidence_age rules.evidence_freshness_limit_seconds
  pub confident : rules.min_approval_confidence_threshold ≤ ctx.confidence
  pub in_budget : ctx.attempts ≤ rules.retry_limit

pub record IsReady (ctx : EvaluationContext) (rules : PolicyRuleSet) : Type 0 where
  pub cooled : IsCooled ctx.last_execution_time ctx.current_time.at rules.cooldown_seconds
  pub unlocked : ctx.is_resource_locked ≡ false

-- Either no person is needed, or one has approved this plan.
abbrev pub IsApproved : EvaluationContext → PolicyRuleSet → Type 0
IsApproved ctx rules = IsUnattended ctx rules ⊎ HoldsGrant ctx.approval_grant ctx

-- A person is needed, and none has decided.
abbrev pub AwaitsPerson : EvaluationContext → PolicyRuleSet → Type 0
AwaitsPerson ctx rules = (¬ IsUnattended ctx rules) × (ctx.approval_grant ≡ none)

-- A person is needed, and the decision on record does not approve this plan.
abbrev pub IsRefused : EvaluationContext → PolicyRuleSet → Type 0
IsRefused ctx rules =
    (¬ IsUnattended ctx rules) × (ctx.approval_grant ≢ none) × (¬ HoldsGrant ctx.approval_grant ctx)

abbrev pub Permitted : EvaluationContext → PolicyRuleSet → Type 0
Permitted ctx rules = IsEligible ctx rules × IsReady ctx rules × IsApproved ctx rules
