-- ===== src/Verify/Passing.antt =====
-- A sample passes exactly where it has seen what Thresholds states.
use self_healing_agent.Text.{codes, lower, codes_eq}
use self_healing_agent.Verify.Metrics.{
  Metric, amount, infinite, not_a_number, QueryResult, MetricProfile, fails_if, error_rate_of,
  judge_errors, evaluate_traffic, exceeds_latency, evaluate_latency, evaluate_alerts, Alert,
}
use self_healing_agent.Verify.Sample.{is_pass}
use self_healing_agent.Verify.Thresholds.{
  Answered, Fresh, TrafficWithin, stale_iff, few_iff, judge_iff,
}
use self_healing_agent.Prelude.{
  ◌&&◌, has, Bool-cases, ◌⊎◌, All, is_empty, any, ℕ, List, subst, inr, inl, Option-cases, arith,
  ◌↔◌, ◌≡◌, Option, refl, [], ◌∷◌, some, none, true, false, ◌≤◌,
}

pub traffic_iff :
    (profile : MetricProfile) (total errors : Option QueryResult)
    → (is_pass (evaluate_traffic profile true total errors) ≡ true)
      ↔ TrafficWithin profile total errors
unfolding evaluate_traffic is_pass
traffic_iff profile none errors = (
  (λ h. absurd (ground (arith, h))),
  λ (res, v, here, ok, there, rest). absurd (ground (arith, here)),
)
traffic_iff profile (some res) none = (
  (λ h. elim (Option-cases res.value) [
    | inl gone ↦ absurd (ground (arith, h, gone))
    | inr (v, there) ↦ absurd (ground (arith, h, there))
  ]),
  λ (r, v, here, ok, there, (fresh, enough, (e, answered, good, few))).
      absurd (ground (arith, answered)),
)
traffic_iff profile (some res) (some err) = (
  (λ h. elim (Option-cases res.value) [
    | inl gone ↦ absurd (ground (arith, h, gone))
    | inr (v, there) ↦
        let judged =
          judge_iff profile.baseline_success_rate_min profile.max_5xx_error_rate
            profile.max_error_rate (error_rate_of err.value v) in
        (
          res,
          v,
          refl,
          ground (arith, h),
          there,
          (
            (stale_iff profile res).0 (ground (arith, h, there)),
            (few_iff profile v).0 (ground (arith, h, there)),
            (err, refl, ground (arith, h, there), judged.0 (ground (arith, h, there))),
          ),
        )
  ]),
  λ (r, v, here, ok, there, (fresh, enough, (e, answered, good, few))).
      let same : r ≡ res = ground (arith, here) in
      let same_error : e ≡ err = ground (arith, answered) in
      let value = subst (λ (x : QueryResult). x.value ≡ some v) same there in
      let success = subst (λ (x : QueryResult). x.is_success ≡ true) same ok in
      let now_fresh = (stale_iff profile res).1 (subst (Fresh profile) same fresh) in
      let many = (few_iff profile v).1 enough in
      let fine = subst (λ (x : QueryResult). x.is_success ≡ true) same_error good in
      let judged =
        judge_iff profile.baseline_success_rate_min profile.max_5xx_error_rate
          profile.max_error_rate (error_rate_of e.value v) in
      let passed =
        subst
          (λ (x : QueryResult).
            is_pass (
              judge_errors profile.baseline_success_rate_min profile.max_5xx_error_rate
                profile.max_error_rate (error_rate_of x.value v))
            ≡ true)
          same_error (judged.1 few) in
      ground (arith, value, success, now_fresh, many, fine, passed),
)

-- The latency where the profile asks for it; NaN is within each limit.
abbrev pub Quick : ℕ → Metric → Type 0
Quick most (amount v) = v ≤ most
Quick most infinite = ⊥
Quick most not_a_number = Unit

abbrev pub LatencyWithin : Option ℕ → Option QueryResult → Type 0
LatencyWithin none query = Unit
LatencyWithin (some most) query = Answered (λ res v. Quick most v) query

exceeds_latency_iff : (v : Metric) (most : ℕ) → (exceeds_latency v most ≡ false) ↔ Quick most v
unfolding exceeds_latency
exceeds_latency_iff (amount v) most = ((λ h. ground (arith, h)), λ h. ground (arith, h))
exceeds_latency_iff infinite most = ((λ h. absurd (ground (arith, h))), λ h. absurd h)
exceeds_latency_iff not_a_number most = ((λ h. tt), λ h. refl)

pub latency_cases :
    (profile : MetricProfile) (query : Option QueryResult) (limit : Option ℕ)
    → profile.max_p95_latency ≡ limit
    → (is_pass (evaluate_latency profile true query) ≡ true) ↔ LatencyWithin limit query
unfolding evaluate_latency is_pass fails_if
latency_cases profile query none at = ((λ h. tt), λ h. ground (arith, at))
latency_cases profile none (some most) at = (
  (λ h. absurd (ground (arith, h, at))),
  λ (res, v, here, ok, there, quick). absurd (ground (arith, here)),
)
latency_cases profile (some res) (some most) at = (
  (λ h. elim (Option-cases res.value) [
    | inl gone ↦ absurd (ground (arith, h, at, gone))
    | inr (v, there) ↦ (
      res,
      v,
      refl,
      ground (arith, h, at),
      there,
      (exceeds_latency_iff v most).0 (ground (arith, h, at, there)),
    )
  ]),
  λ (r, v, here, ok, there, quick).
      let same : r ≡ res = ground (arith, here) in
      let value = subst (λ (x : QueryResult). x.value ≡ some v) same there in
      let success = subst (λ (x : QueryResult). x.is_success ≡ true) same ok in
      let low = (exceeds_latency_iff v most).1 quick in ground (arith, at, value, success, low),
)

-- No alert that the profile prohibits is firing.
abbrev pub Quiet : MetricProfile → List Alert → Type 0
Quiet profile alerts =
    All
      (λ (a : Alert).
        has profile.prohibited_active_alerts a.0 ≡ true
        → codes_eq (lower a.1) (codes "firing") ≡ false)
      alerts

abbrev pub AlertsWithin : MetricProfile → Option (List Alert) → Type 0
AlertsWithin profile alerts =
    (profile.prohibited_active_alerts ≡ [])
    ⊎ ((active : List Alert) × (alerts ≡ some active) × Quiet profile active)

no_firing_iff :
    (profile : MetricProfile) (alerts : List Alert)
    → (any
          (λ a. has profile.prohibited_active_alerts a.0 && codes_eq (lower a.1) (codes "firing"))
          alerts
        ≡ false)
      ↔ Quiet profile alerts
no_firing_iff profile [] = ((λ h. tt), λ h. refl)
no_firing_iff profile (a ∷ alerts) =
    let rec = no_firing_iff profile alerts in
    (
      (λ h. ((λ prohibited. ground (arith, h, prohibited)), rec.0 (ground (arith, h)))),
      λ (calm, later).
          let rest = rec.1 later in
          elim (Bool-cases (has profile.prohibited_active_alerts a.0)) [
            | inl prohibited ↦
                let silent = calm prohibited in ground (arith, rest, prohibited, silent)
            | inr allowed ↦ ground (arith, rest, allowed)
          ],
    )

nil_of {ℓ} : {A : Type ℓ} (xs : List A) → is_empty xs ≡ true → xs ≡ []
nil_of [] h = refl
nil_of (x ∷ xs) h = absurd (ground (arith, h))

pub alerts_iff :
    (profile : MetricProfile) (alerts : Option (List Alert))
    → (is_pass (evaluate_alerts profile alerts) ≡ true) ↔ AlertsWithin profile alerts
unfolding evaluate_alerts is_pass fails_if
alerts_iff profile alerts = elim (Bool-cases (is_empty profile.prohibited_active_alerts)) [
  | inl nothing ↦
      ((λ h. inl (nil_of profile.prohibited_active_alerts nothing)), λ h. ground (arith, nothing))
  | inr more ↦ elim (Option-cases alerts) [
    | inl gone ↦ (
      (λ h. absurd (ground (arith, h, more, gone))),
      λ w. absurd (elim w [
        | inl nothing ↦ ground (arith, more, nothing)
        | inr (active, there, calm) ↦ ground (arith, gone, there)
      ]),
    )
    | inr (active, here) ↦ (
      (λ h. inr (active, here, (no_firing_iff profile active).0 (ground (arith, h, more, here)))),
      λ w. elim w [
        | inl nothing ↦ absurd (ground (arith, more, nothing))
        | inr (a, there, calm) ↦
            let same : a ≡ active = ground (arith, here, there) in
            let silent = (no_firing_iff profile active).1 (subst (Quiet profile) same calm) in
            ground (arith, more, here, silent)
      ],
    )
  ]
]
