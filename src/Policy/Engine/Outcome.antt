-- ===== src/Policy/Engine/Outcome.antt =====
-- The engine against the contract: each outcome is given exactly where the contract asks for it.
use self_healing_agent.Prelude.{
  some, none, Option, inl, inr, subst, sym, ◌≡◌, true, false, ◌↔◌, arith, refl,
}
use self_healing_agent.Policy.Schemas.{ApprovalGrant, PolicyRuleSet, Datetime, EvaluationContext}
use self_healing_agent.Policy.Engine.Permitted.{
  Unexpired, HoldsGrant, IsUnattended, IsEligible, IsCooled,
}
use self_healing_agent.Policy.Engine.Gates.{
  resource_lock_iff, cooldown_lem, attempt_budget_iff, prohibited_action_iff, emergency_stop_iff,
  confidence_iff, kill_switch_iff,
}
use self_healing_agent.Policy.Engine.Approval.{
  approval_lem, passes, denies, asks, Answer, ApprovalAnswer,
}
use self_healing_agent.Policy.Schemas.{RuleEvaluationResult}
use self_healing_agent.Policy.Rules.{evaluate_allowlist, evaluate_environment}
use self_healing_agent.Policy.Engine.{Gated, hard_of, run_gates, gated}

abbrev AllHard : Gated → Type 0
AllHard g =
    (g.r1.passed ≡ true)
    × (g.r2.passed ≡ true)
    × (g.r3.passed ≡ true)
    × (g.r4.passed ≡ true)
    × (g.r5.passed ≡ true)
    × (g.r6.passed ≡ true)
    × (g.r7.passed ≡ true)

hard_of_iff : (g : Gated) → (hard_of g ≡ false) ↔ AllHard g
unfolding hard_of
hard_of_iff g = (λ h. ground arith, λ h. ground arith)

-- What the results of the gates say of the context that they were run on.
pub record IsSound (ctx : EvaluationContext) (rules : PolicyRuleSet) (g : Gated) : Type 0 where
  pub eligible : (hard_of g ≡ false) ↔ IsEligible ctx rules
  pub cooled :
      (g.r8.passed ≡ true)
      ↔ IsCooled ctx.last_execution_time ctx.current_time.at rules.cooldown_seconds
  pub unlocked : (g.r9.passed ≡ true) ↔ (ctx.is_resource_locked ≡ false)
  pub answer : ApprovalAnswer g.r10 ctx rules

module _ (ctx : EvaluationContext) (rules : PolicyRuleSet) (now : Datetime)
    (same : now.at ≡ ctx.current_time.at) where
  alone_at : IsUnattended (record ctx { current_time = now }) rules ↔ IsUnattended ctx rules
  alone_at = (
    (λ u. record { mode = u.mode; confident = u.confident }),
    (λ u. record { mode = u.mode; confident = u.confident }),
  )

  grant_at :
      (o : Option ApprovalGrant)
      → HoldsGrant o (record ctx { current_time = now }) ↔ HoldsGrant o ctx
  grant_at none = (λ h. h, λ h. h)
  grant_at (some g) = (
    (λ v. record {
      not_rejected = v.not_rejected;
      approves = v.approves;
      binds_version = v.binds_version;
      binds_hash = v.binds_hash;
      unexpired = subst (Unexpired g.expires_at) same v.unexpired;
      by_approver = v.by_approver;
    }),
    (λ v. record {
      not_rejected = v.not_rejected;
      approves = v.approves;
      binds_version = v.binds_version;
      binds_hash = v.binds_hash;
      unexpired = subst (Unexpired g.expires_at) (sym same) v.unexpired;
      by_approver = v.by_approver;
    }),
  )

map_answer :
    {r : RuleEvaluationResult} {U V U' V' A : Type 0}
    → U ↔ U'
    → V ↔ V'
    → Answer r U V A
    → Answer r U' V' A
map_answer u v (passes p (inl x)) = passes p (inl (u.0 x))
map_answer u v (passes p (inr x)) = passes p (inr (v.0 x))
map_answer u v (denies p h no_u no_v no_a) = denies p h (λ x. no_u (u.1 x)) (λ x. no_v (v.1 x)) no_a
map_answer u v (asks p h no_u no_v a) = asks p h (λ x. no_u (u.1 x)) (λ x. no_v (v.1 x)) a

module _ (ctx ctx' : EvaluationContext) (rules : PolicyRuleSet)
    (r8 r10 : RuleEvaluationResult) where
  IsEligible-of : hard_of (gated ctx ctx' rules r8 r10) ≡ false → IsEligible ctx rules
  unfolding evaluate_allowlist evaluate_environment
  IsEligible-of h =
      let (p1, p2, p3, p4, p5, p6, p7) = (hard_of_iff (gated ctx ctx' rules r8 r10)).0 h in
      let conf = (confidence_iff ctx rules).0 p6 in
      record {
        not_disabled = (kill_switch_iff ctx rules).0 p1;
        service_not_stopped = ((emergency_stop_iff ctx rules).0 p2).0;
        container_not_stopped = ((emergency_stop_iff ctx rules).0 p2).1;
        action_listed = ((prohibited_action_iff ctx rules).0 p3).0;
        low_risk = ((prohibited_action_iff ctx rules).0 p3).1;
        target_listed = p4;
        environment_listed = p5;
        cause_supported = conf.0;
        fresh = conf.1;
        confident = conf.2;
        in_budget = (attempt_budget_iff ctx rules).0 p7;
      }

  hard_of_eligible : IsEligible ctx rules → hard_of (gated ctx ctx' rules r8 r10) ≡ false
  unfolding evaluate_allowlist evaluate_environment
  hard_of_eligible e = (hard_of_iff (gated ctx ctx' rules r8 r10)).1 (
    (kill_switch_iff ctx rules).1 e.not_disabled,
    (emergency_stop_iff ctx rules).1 (e.service_not_stopped, e.container_not_stopped),
    (prohibited_action_iff ctx rules).1 (e.action_listed, e.low_risk),
    e.target_listed,
    e.environment_listed,
    (confidence_iff ctx rules).1 (e.cause_supported, e.fresh, e.confident),
    (attempt_budget_iff ctx rules).1 e.in_budget,
  )

-- The gates always answer, leave the context as it is but for the clock's kind, and are sound.
pub run_gates_lem :
    (ctx : EvaluationContext) (rules : PolicyRuleSet)
    → (g : Gated) × (now : Datetime) × (run_gates ctx rules
        ≡ some (g, record ctx { current_time = now }))
      × (now.at ≡ ctx.current_time.at)
      × IsSound ctx rules g
unfolding run_gates
run_gates_lem ctx rules =
    let (r8, now, run8, same, cooled) = cooldown_lem ctx rules in
    let ctx' : EvaluationContext = record ctx { current_time = now } in
    let (r10, run10, answer) = approval_lem ctx' rules in
    (
      gated ctx ctx' rules r8 r10,
      now,
      rw (run8, run_gates) (rw run10 refl),
      same,
      record {
        eligible = (IsEligible-of ctx ctx' rules r8 r10, hard_of_eligible ctx ctx' rules r8 r10);
        cooled = cooled;
        unlocked = resource_lock_iff ctx' rules;
        answer =
            map_answer (alone_at ctx rules now same)
              (grant_at ctx rules now same ctx.approval_grant) answer;
      },
    )
