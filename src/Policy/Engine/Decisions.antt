-- ===== src/Policy/Engine/Decisions.antt =====
-- The results about `PolicyEngine.evaluate`.
use self_healing_agent.Prelude.{
  ◌<◌, subst, ◌<◌, Bool-cases, ◌∙◌, ap, sym, ◌⊎◌, true≢false, inl, inr, inr, none, inl, ◌≡◌, true,
  ◌↔◌, arith, refl, Option, or_default, some,
}
use self_healing_agent.Policy.Schemas.{
  Datetime, defer, PolicyRuleSet, waiting_for_cooldown, waiting_for_lock, EvaluationContext,
  PolicyEvaluationDecision, allow, deny, require_approval,
}
use self_healing_agent.Policy.Engine.Permitted.{
  IsEligible, IsReady, IsCooled, Permitted, IsRefused, AwaitsPerson,
}
use self_healing_agent.Policy.Engine.Outcome.{IsSound, run_gates_lem}
use self_healing_agent.Policy.Engine.{Gated, run_gates, evaluate, decide, PolicyEngine}
use self_healing_agent.Policy.Engine.Bits.{
  flags_of, allow_bits, deny_bits, require_bits, defer_bits, cooldown_wait, lock_wait,
  cooldown_end_lem, approved_iff, refused_iff, asks_iff, not_eligible_iff, not_refused_flags,
  not_ready_bits, not_unlocked, no_grant,
}

evaluate-decide :
    (self : PolicyEngine) (ctx : EvaluationContext) (rules : Option PolicyRuleSet) {g : Gated}
    {c : EvaluationContext}
    → run_gates ctx (or_default rules self.rules) ≡ some (g, c)
    → evaluate self ctx rules ≡ some (decide c (or_default rules self.rules) g)
unfolding evaluate
evaluate-decide self ctx rules run = rw (run, evaluate) refl

-- Evaluation never raises: whatever mix of aware and naive datetimes the context holds, it ends in a
-- decision.
pub evaluate-total :
    (self : PolicyEngine) (ctx : EvaluationContext) (rules : Option PolicyRuleSet)
    → (d : PolicyEvaluationDecision) × (evaluate self ctx rules ≡ some d)
evaluate-total self ctx rules =
    let (g, now, run, _, _) = run_gates_lem ctx (or_default rules self.rules) in
    (_, evaluate-decide self ctx rules run)

-- What a deferral tells its reader: the cooldown and a later time at which it is over, or the lock.
abbrev pub WaitsFor : PolicyEvaluationDecision → EvaluationContext → PolicyRuleSet → Type 0
WaitsFor d ctx rules =
    ((d.wait_reason ≡ some waiting_for_cooldown)
      × ((t : Datetime) × (d.defer_until ≡ some t)
          × (ctx.current_time.at < t.at)
          × IsCooled ctx.last_execution_time t.at rules.cooldown_seconds))
    ⊎ ((d.wait_reason ≡ some waiting_for_lock)
        × (d.defer_until ≡ none)
        × (ctx.is_resource_locked ≡ true))

module _ (self : PolicyEngine) (ctx : EvaluationContext) (rules : Option PolicyRuleSet)
    {d : PolicyEvaluationDecision} (done : evaluate self ctx rules ≡ some d) where
  abbrev active : PolicyRuleSet
  active = or_default rules self.rules

  decided :
      (g : Gated) × (now : Datetime) × (decide (record ctx { current_time = now }) active g ≡ d)
      × IsSound ctx active g
      × (now.at ≡ ctx.current_time.at)
  decided =
      let (g, now, run, at, sound) = run_gates_lem ctx active in
      let e = evaluate-decide self ctx rules run in (g, now, cc (e, done), sound, at)

  -- The engine allows a plan exactly where the contract permits it: the context is eligible, the
  -- cooldown is over, the resource is unlocked, and the plan may run unattended or holds a valid grant.
  pub evaluate-allow_iff : (d.decision ≡ allow) ↔ Permitted ctx active
  evaluate-allow_iff =
      let (g, now, same, s, at) = decided in
      let c : EvaluationContext = record ctx { current_time = now } in
      let bits = allow_bits c active g (flags_of s.answer) in
      (
        (λ h.
            let (hard, p8, p9, p10) =
              bits.0 (ap (λ (x : PolicyEvaluationDecision). x.decision) same ∙ h) in
            (
              s.eligible.0 hard,
              record { cooled = s.cooled.0 p8; unlocked = s.unlocked.0 p9 },
              (approved_iff s.answer).0 p10,
            )),
        (λ (e, r, a).
            ap (λ (x : PolicyEvaluationDecision). x.decision) (sym same)
            ∙ bits.1 (
              s.eligible.1 e,
              s.cooled.1 r.cooled,
              s.unlocked.1 r.unlocked,
              (approved_iff s.answer).1 a,
            )),
      )

  -- The engine denies a plan exactly where the context is not eligible, or where a person is needed and
  -- the decision on record does not approve this plan; the cooldown and the lock play no part.
  pub evaluate-deny_iff : (d.decision ≡ deny) ↔ ((¬ IsEligible ctx active) ⊎ IsRefused ctx active)
  evaluate-deny_iff =
      let (g, now, same, s, at) = decided in
      let c : EvaluationContext = record ctx { current_time = now } in
      let bits = deny_bits c active g (flags_of s.answer) in
      let not_eligible = not_eligible_iff s.eligible in
      let refused = refused_iff s.answer in
      (
        (λ h. elim (bits.0 (ap (λ (x : PolicyEvaluationDecision). x.decision) same ∙ h)) [
          | inl hard ↦ inl (not_eligible.0 hard)
          | inr q ↦ inr (refused.0 q)
        ]),
        (λ n.
            ap (λ (x : PolicyEvaluationDecision). x.decision) (sym same)
            ∙ bits.1 (elim n [ inl h ↦ inl (not_eligible.1 h) | inr q ↦ inr (refused.1 q) ])),
      )

  -- The engine asks for an approval exactly where the context is eligible and ready, a person is needed,
  -- and no decision is on record.
  pub evaluate-require_iff :
      (d.decision ≡ require_approval)
      ↔ IsEligible ctx active × IsReady ctx active × AwaitsPerson ctx active
  evaluate-require_iff =
      let (g, now, same, s, at) = decided in
      let c : EvaluationContext = record ctx { current_time = now } in
      let bits = require_bits c active g (flags_of s.answer) in
      let awaits = asks_iff (no_grant ctx.approval_grant ctx) s.answer in
      (
        (λ h.
            let (hard, p8, p9, q) =
              bits.0 (ap (λ (x : PolicyEvaluationDecision). x.decision) same ∙ h) in
            (
              s.eligible.0 hard,
              record { cooled = s.cooled.0 p8; unlocked = s.unlocked.0 p9 },
              awaits.0 q,
            )),
        (λ (e, r, a).
            ap (λ (x : PolicyEvaluationDecision). x.decision) (sym same)
            ∙ bits.1 (s.eligible.1 e, s.cooled.1 r.cooled, s.unlocked.1 r.unlocked, awaits.1 a)),
      )

  -- The engine defers a plan exactly where the context is eligible and not refused by a person, and the
  -- cooldown runs or the resource is locked.
  pub evaluate-defer_iff :
      (d.decision ≡ defer)
      ↔ IsEligible ctx active × (¬ IsRefused ctx active) × (¬ IsReady ctx active)
  evaluate-defer_iff =
      let (g, now, same, s, at) = decided in
      let c : EvaluationContext = record ctx { current_time = now } in
      let bits = defer_bits c active g (flags_of s.answer) in
      let refused = refused_iff s.answer in
      (
        (λ h.
            let (hard, p10, p89) =
              bits.0 (ap (λ (x : PolicyEvaluationDecision). x.decision) same ∙ h) in
            (
              s.eligible.0 hard,
              (λ n.
                  let (p, hard10) = refused.1 n in
                  elim p10 [
                    | inl q ↦ true≢false (sym q ∙ p)
                    | inr q ↦ true≢false (sym hard10 ∙ q)
                  ]),
              (λ r. elim p89 [
                | inl p ↦ true≢false (sym (s.cooled.1 r.cooled) ∙ p)
                | inr p ↦ true≢false (sym (s.unlocked.1 r.unlocked) ∙ p)
              ]),
            )),
        (λ (e, n, w).
            ap (λ (x : PolicyEvaluationDecision). x.decision) (sym same)
            ∙ bits.1 (
              s.eligible.1 e,
              not_refused_flags g.r10 (flags_of s.answer) (λ q. n (refused.0 q)),
              not_ready_bits g.r8.passed g.r9.passed
                  (λ p8 p9. w (record { cooled = s.cooled.0 p8; unlocked = s.unlocked.0 p9 })),
            )),
      )

  -- A deferral for the cooldown names a time after the present at which the cooldown is over; a deferral
  -- for the lock alone names the lock and no time.
  pub evaluate-defer_until : d.decision ≡ defer → WaitsFor d ctx active
  evaluate-defer_until h =
      let (g, now, same, s, at) = decided in
      let c : EvaluationContext = record ctx { current_time = now } in
      let bits = flags_of s.answer in
      let h' = ap (λ (x : PolicyEvaluationDecision). x.decision) same ∙ h in
      elim (Bool-cases g.r8.passed) [
        | inl cool ↦
            let (busy, why, until) = lock_wait c active g bits h' cool in
            inr (
              ap (λ (x : PolicyEvaluationDecision). x.wait_reason) (sym same) ∙ why,
              ap (λ (x : PolicyEvaluationDecision). x.defer_until) (sym same) ∙ until,
              not_unlocked ctx.is_resource_locked (λ u. true≢false (sym (s.unlocked.1 u) ∙ busy)),
            )
        | inr hot ↦
            let (why, until) = cooldown_wait c active g bits h' hot in
            let (t, ends, later, over) =
              cooldown_end_lem ctx.last_execution_time c active refl (λ k. true≢false (
                sym (
                  s.cooled.1
                    (subst (λ n. IsCooled ctx.last_execution_time n active.cooldown_seconds) at k))
                ∙ hot)) in
            inl (
              ap (λ (x : PolicyEvaluationDecision). x.wait_reason) (sym same) ∙ why,
              (
                t,
                ap (λ (x : PolicyEvaluationDecision). x.defer_until) (sym same) ∙ until ∙ ends,
                omega (arith, later, at),
                over,
              ),
            )
      ]
