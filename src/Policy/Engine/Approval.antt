-- ===== src/Policy/Engine/Approval.antt =====
-- Gate 10: what it answers, and that it raises nothing.
use self_healing_agent.Policy.Engine.Gates.{aligned_same, at-align}
use text.Mathlib.TextEquality.{eq_iff}
use self_healing_agent.Prelude.{
  true≢false, ℕ, ◌≡◌, ◌⊎◌, inl, inr, refl, Bool, true, false, not, if◌then◌else◌, Option, none,
  some, String, arith, Bool-cases, sym, ◌∙◌, ◌||◌, leb, ◌↔◌, ltb,
}
use self_healing_agent.Text.{upper_is}
use self_healing_agent.Policy.Schemas.{
  automatic_execution_permitted, PolicyRuleSet, Datetime, ApprovalGrant, EvaluationContext,
  RuleEvaluationResult, approval_required, approval_requirement, approval_rejected,
  approval_decision_invalid, approval_plan_version_mismatch, approval_content_hash_mismatch,
}
use self_healing_agent.Policy.Rules.{
  evaluate_approval_requirement, validate_grant, hash_differs, version_differs, is_expired, result,
  grant_outcome, inspect_grant, is_approval_mode,
}
use self_healing_agent.Policy.Engine.Permitted.{
  Unexpired, BindsVersion, BindsHash, IsValidGrant, HoldsGrant, IsUnattended,
}
use self_healing_agent.Policy.Engine.{is_hard_approval_code}

not_expired :
    (o : Option Datetime) (now : Datetime)
    → (b : Bool) × (is_expired o now ≡ some b) × ((b ≡ false) ↔ Unexpired o now.at)
unfolding is_expired
not_expired none now = (false, refl, (λ h. tt, λ h. refl))
not_expired (some e) now = (
  leb e.at now.at,
  ground (arith, at-align e now, at-align now e, aligned_same e now),
  (λ h. ground arith, λ h. ground arith),
)

version_iff : (o : Option ℕ) (v : ℕ) → (version_differs o v ≡ false) ↔ BindsVersion o v
unfolding version_differs
version_iff none v = (λ h. cc, λ h. absurd h)
version_iff (some g) v = (λ h. ground arith, λ h. ground arith)

hash_iff : (o : Option String) (h : String) → (hash_differs o h ≡ false) ↔ BindsHash o h
unfolding hash_differs
hash_iff none h = (λ e. tt, λ e. refl)
hash_iff (some g) h =
    (λ e. ground (arith, eq_iff g "", eq_iff g h), λ e. ground (arith, eq_iff g "", eq_iff g h))

-- The ladder of checks, with the answer of the expiry test.
checked : ApprovalGrant → EvaluationContext → Bool → RuleEvaluationResult
checked g ctx expired =
    if upper_is g.decision "REJECT"
    then result approval_requirement false approval_rejected
    else if not (upper_is g.decision "APPROVE")
    then result approval_requirement false approval_decision_invalid
    else if version_differs g.plan_version ctx.plan_version
    then result approval_requirement false approval_plan_version_mismatch
    else if hash_differs g.content_hash ctx.content_hash
    then result approval_requirement false approval_content_hash_mismatch
    else grant_outcome expired g.approver_role

validate_grant-checked :
    (g : ApprovalGrant) (ctx : EvaluationContext) (expired : Bool)
    → is_expired g.expires_at ctx.current_time ≡ some expired
    → validate_grant g ctx ≡ some (checked g ctx expired)
unfolding validate_grant checked
validate_grant-checked g ctx expired e = rw e (ground arith)

checked_iff :
    (g : ApprovalGrant) (ctx : EvaluationContext) (expired : Bool)
    → ((expired ≡ false) ↔ Unexpired g.expires_at ctx.current_time.at)
    → ((checked g ctx expired).passed ≡ true) ↔ IsValidGrant g ctx
unfolding checked
checked_iff g ctx expired e =
    let ver = version_iff g.plan_version ctx.plan_version in
    let hsh = hash_iff g.content_hash ctx.content_hash in
    (
      (λ h. record {
        not_rejected = ground arith;
        approves = ground arith;
        binds_version = ver.0 (ground arith);
        binds_hash = hsh.0 (ground arith);
        unexpired = e.0 (ground arith);
        by_approver = ground arith;
      }),
      (λ v.
          let v1 = ver.1 v.binds_version in
          let h1 = hsh.1 v.binds_hash in let e1 = e.1 v.unexpired in ground arith),
    )

checked_codes :
    (g : ApprovalGrant) (ctx : EvaluationContext) (expired : Bool)
    → ((checked g ctx expired).passed ≡ true)
      ⊎ (((checked g ctx expired).passed ≡ false)
          × (is_hard_approval_code (checked g ctx expired).reason_code ≡ true))
unfolding checked
checked_codes g ctx expired = ground arith

-- How gate 10 answers: it passes; it denies; or it asks for the approval that is missing.
pub data Answer (r : RuleEvaluationResult) (unattended valid absent : Type 0) : Type 0 where
  passes : r.passed ≡ true → unattended ⊎ valid → Answer r unattended valid absent
  denies :
      r.passed ≡ false
      → is_hard_approval_code r.reason_code ≡ true
      → ¬ unattended
      → ¬ valid
      → ¬ absent
      → Answer r unattended valid absent
  asks :
      r.passed ≡ false
      → r.reason_code ≡ approval_required
      → ¬ unattended
      → ¬ valid
      → absent
      → Answer r unattended valid absent

answer_grant :
    (g : ApprovalGrant) (ctx : EvaluationContext) (expired : Bool)
    → ((expired ≡ false) ↔ Unexpired g.expires_at ctx.current_time.at)
    → {U : Type 0} → ¬ U
    → Answer (checked g ctx expired) U (IsValidGrant g ctx) (some g ≡ none)
answer_grant g ctx expired e no_u = elim (checked_codes g ctx expired) [
  | inl p ↦ passes p (inr ((checked_iff g ctx expired e).0 p))
  | inr (p, hard) ↦
      denies p hard no_u (λ v. true≢false (sym ((checked_iff g ctx expired e).1 v) ∙ p))
        (λ same. cc)
]

-- A grant is inspected without a TypeError, and passes exactly where it is valid.
inspect_grant_lem :
    (o : Option ApprovalGrant) (ctx : EvaluationContext) {U : Type 0}
    → ¬ U
    → (r : RuleEvaluationResult) × (inspect_grant o ctx ≡ some r)
      × Answer r U (HoldsGrant o ctx) (o ≡ none)
unfolding inspect_grant
inspect_grant_lem none ctx no_u = (_, refl, asks refl refl no_u (λ v. absurd v) refl)
inspect_grant_lem (some g) ctx no_u =
    let (expired, run, unexp) = not_expired g.expires_at ctx.current_time in
    (
      checked g ctx expired,
      validate_grant-checked g ctx expired run,
      answer_grant g ctx expired unexp no_u,
    )

abbrev needs_approval : EvaluationContext → PolicyRuleSet → Bool
needs_approval ctx rules =
    is_approval_mode ctx.automation_mode
    || ltb ctx.confidence rules.auto_approval_confidence_threshold

runs_alone_iff :
    (ctx : EvaluationContext) (rules : PolicyRuleSet)
    → (needs_approval ctx rules ≡ false) ↔ IsUnattended ctx rules
runs_alone_iff ctx rules = (λ h. ground arith, λ u. ground arith)

abbrev pub ApprovalAnswer : RuleEvaluationResult → EvaluationContext → PolicyRuleSet → Type 0
ApprovalAnswer r ctx rules =
    Answer r (IsUnattended ctx rules) (HoldsGrant ctx.approval_grant ctx)
      (ctx.approval_grant ≡ none)

pub approval_lem :
    (ctx : EvaluationContext) (rules : PolicyRuleSet)
    → (r : RuleEvaluationResult) × (evaluate_approval_requirement ctx rules ≡ some r)
      × ApprovalAnswer r ctx rules
unfolding evaluate_approval_requirement
approval_lem ctx rules = elim (Bool-cases (needs_approval ctx rules)) [
  | inl needed ↦
      let (r, run, answer) =
        inspect_grant_lem ctx.approval_grant ctx {U = IsUnattended ctx rules}
          (λ u. true≢false (sym needed ∙ (runs_alone_iff ctx rules).1 u)) in
      (r, rw needed run, answer)
  | inr free ↦ (
    result approval_requirement true automatic_execution_permitted,
    rw free refl,
    passes refl (inl ((runs_alone_iff ctx rules).0 free)),
  )
]
