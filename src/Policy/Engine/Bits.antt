-- ===== src/Policy/Engine/Bits.antt =====
-- The outcome of `decide` as a function of what the gates answered, bit by bit.
use self_healing_agent.Prelude.{
  ◌+◌, ◌<◌, ◌<◌, Bool-cases, ◌∙◌, ap, sym, ◌⊎◌, true≢false, inl, inr, inr, none, inl, ◌≡◌, Bool,
  true, false, ◌↔◌, arith, refl, Option, some,
}
use self_healing_agent.Policy.Schemas.{
  Datetime, defer, ApprovalGrant, approval_required, RuleEvaluationResult, PolicyRuleSet, seconds,
  waiting_for_cooldown, waiting_for_lock, EvaluationContext, allow, deny, require_approval,
}
use self_healing_agent.Policy.Engine.Permitted.{HoldsGrant, IsCooled}
use self_healing_agent.Policy.Engine.Approval.{Answer, passes, denies, asks}
use self_healing_agent.Policy.Rules.{align}
use self_healing_agent.Policy.Engine.{
  is_hard_approval_code, choose, hard_deny, Gated, hard_of, cooldown_end, decide,
}

-- What the answer of gate 10 says of its result.
abbrev pub Bits : RuleEvaluationResult → Type 0
Bits r =
    (r.passed ≡ true)
    ⊎ ((r.passed ≡ false) × (is_hard_approval_code r.reason_code ≡ true))
    ⊎ ((r.passed ≡ false) × (r.reason_code ≡ approval_required))

pub flags_of : {r : RuleEvaluationResult} {U V A : Type 0} → Answer r U V A → Bits r
flags_of (passes p w) = inl p
flags_of (denies p h _ _ _) = inr (inl (p, h))
flags_of (asks p c _ _ _) = inr (inr (p, c))

module _ (ctx : EvaluationContext) (rules : PolicyRuleSet) (g : Gated) (bits : Bits g.r10) where
  pub allow_bits :
      ((decide ctx rules g).decision ≡ allow)
      ↔ (hard_of g ≡ false) × (g.r8.passed ≡ true) × (g.r9.passed ≡ true) × (g.r10.passed ≡ true)
  unfolding decide hard_deny choose
  allow_bits = (λ h. ground arith, λ h. ground arith)

  pub deny_bits :
      ((decide ctx rules g).decision ≡ deny)
      ↔ (hard_of g ≡ true)
        ⊎ ((g.r10.passed ≡ false) × (is_hard_approval_code g.r10.reason_code ≡ true))
  unfolding decide hard_deny choose
  deny_bits = (λ h. ground arith, λ h. ground arith)

  pub require_bits :
      ((decide ctx rules g).decision ≡ require_approval)
      ↔ (hard_of g ≡ false)
        × (g.r8.passed ≡ true)
        × (g.r9.passed ≡ true)
        × ((g.r10.passed ≡ false) × (g.r10.reason_code ≡ approval_required))
  unfolding decide hard_deny choose
  require_bits = (λ h. ground arith, λ h. ground arith)

  pub defer_bits :
      ((decide ctx rules g).decision ≡ defer)
      ↔ (hard_of g ≡ false)
        × ((g.r10.passed ≡ true) ⊎ (is_hard_approval_code g.r10.reason_code ≡ false))
        × ((g.r8.passed ≡ false) ⊎ (g.r9.passed ≡ false))
  unfolding decide hard_deny choose
  defer_bits = (λ h. ground arith, λ h. ground arith)

  pub cooldown_wait :
      (decide ctx rules g).decision ≡ defer
      → g.r8.passed ≡ false
      → ((decide ctx rules g).wait_reason ≡ some waiting_for_cooldown)
        × ((decide ctx rules g).defer_until ≡ cooldown_end ctx rules)
  unfolding decide hard_deny choose
  cooldown_wait h p = ground arith

  pub lock_wait :
      (decide ctx rules g).decision ≡ defer
      → g.r8.passed ≡ true
      → (g.r9.passed ≡ false)
        × ((decide ctx rules g).wait_reason ≡ some waiting_for_lock)
        × ((decide ctx rules g).defer_until ≡ none)
  unfolding decide hard_deny choose
  lock_wait h p = ground arith

-- Where the cooldown runs, its end is the last execution plus the cooldown.
pub cooldown_end_lem :
    (o : Option Datetime) (ctx : EvaluationContext) (rules : PolicyRuleSet)
    → ctx.last_execution_time ≡ o
    → ¬ IsCooled o ctx.current_time.at rules.cooldown_seconds
    → (t : Datetime) × (cooldown_end ctx rules ≡ some t)
      × (ctx.current_time.at < t.at)
      × IsCooled o t.at rules.cooldown_seconds
unfolding cooldown_end align
cooldown_end_lem none ctx rules e n = absurd (n tt)
cooldown_end_lem (some last) ctx rules e n = (
  record (align last ctx.current_time) { at = last.at + seconds rules.cooldown_seconds },
  ground arith,
  omega arith,
  omega arith,
)

-- The three answers of gate 10, read off its result.
pub approved_iff :
    {r : RuleEvaluationResult} {U V A : Type 0} → Answer r U V A → (r.passed ≡ true) ↔ (U ⊎ V)
approved_iff (passes p w) = (λ _. w, λ _. p)
approved_iff (denies p h no_u no_v no_a) = (
  λ q. absurd (true≢false (sym q ∙ p)),
  elim [ inl u ↦ absurd (no_u u) | inr v ↦ absurd (no_v v) ],
)
approved_iff (asks p c no_u no_v a) = (
  λ q. absurd (true≢false (sym q ∙ p)),
  elim [ inl u ↦ absurd (no_u u) | inr v ↦ absurd (no_v v) ],
)

pub refused_iff :
    {r : RuleEvaluationResult} {U V A : Type 0}
    → Answer r U V A
    → ((r.passed ≡ false) × (is_hard_approval_code r.reason_code ≡ true)) ↔ (¬ U) × (¬ A) × (¬ V)
refused_iff (passes p (inl u)) = (λ q. absurd (true≢false (sym p ∙ q.0)), λ n. absurd (n.0 u))
refused_iff (passes p (inr v)) = (λ q. absurd (true≢false (sym p ∙ q.0)), λ n. absurd (n.2 v))
refused_iff (denies p h no_u no_v no_a) = (λ _. (no_u, no_a, no_v), λ _. (p, h))
refused_iff (asks p c no_u no_v a) =
    (λ q. absurd (true≢false (sym q.1 ∙ ap is_hard_approval_code c)), λ n. absurd (n.1 a))

pub asks_iff :
    {r : RuleEvaluationResult} {U V A : Type 0}
    → (A → ¬ V)
    → Answer r U V A
    → ((r.passed ≡ false) × (r.reason_code ≡ approval_required)) ↔ (¬ U) × A
asks_iff av (passes p (inl u)) = (λ q. absurd (true≢false (sym p ∙ q.0)), λ n. absurd (n.0 u))
asks_iff av (passes p (inr v)) = (λ q. absurd (true≢false (sym p ∙ q.0)), λ n. absurd (av n.1 v))
asks_iff av (denies p h no_u no_v no_a) =
    ((λ q. absurd (true≢false (sym h ∙ ap is_hard_approval_code q.1))), (λ n. absurd (no_a n.1)))
asks_iff av (asks p c no_u no_v a) = (λ _. (no_u, a), λ _. (p, c))

pub not_eligible_iff : {b : Bool} {E : Type 0} → (b ≡ false) ↔ E → (b ≡ true) ↔ (¬ E)
not_eligible_iff {b} e = (
  (λ t h. true≢false (sym t ∙ e.1 h)),
  (λ n. elim (Bool-cases b) [ inl t ↦ t | inr f ↦ absurd (n (e.0 f)) ]),
)

pub not_refused_flags :
    (r : RuleEvaluationResult)
    → Bits r
    → ¬ ((r.passed ≡ false) × (is_hard_approval_code r.reason_code ≡ true))
    → (r.passed ≡ true) ⊎ (is_hard_approval_code r.reason_code ≡ false)
not_refused_flags r (inl p) n = inl p
not_refused_flags r (inr (inl q)) n = absurd (n q)
not_refused_flags r (inr (inr (p, c))) n = inr (ap is_hard_approval_code c)

pub not_ready_bits : (a b : Bool) → (a ≡ true → b ≡ true → ⊥) → (a ≡ false) ⊎ (b ≡ false)
not_ready_bits true true n = absurd (n refl refl)
not_ready_bits true false n = inr refl
not_ready_bits false b n = inl refl

pub not_unlocked : (b : Bool) → ¬ (b ≡ false) → b ≡ true
not_unlocked true n = refl
not_unlocked false n = absurd (n refl)

pub no_grant : (o : Option ApprovalGrant) (ctx : EvaluationContext) → o ≡ none → ¬ HoldsGrant o ctx
no_grant none ctx e h = h
no_grant (some g) ctx e h = cc
