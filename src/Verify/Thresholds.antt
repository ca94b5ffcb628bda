-- ===== src/Verify/Thresholds.antt =====
-- What a sample that passes has seen, with no check in it.
use self_healing_agent.Verify.Metrics.{
  Metric, amount, infinite, not_a_number, QueryResult, Telemetry, MetricProfile, ErrorRate,
  fraction, infinite_rate, no_rate, check_counter_stability, is_stale_sample, fails_if,
  exceeds_saturation, evaluate_cpu, error_rate_of, exceeds, falls_below, default_threshold,
  judge_errors, too_few,
}
use self_healing_agent.Verify.Sample.{is_pass}
use self_healing_agent.Prelude.{
  subst, inr, inl, Option-cases, arith, ◌↔◌, ◌≢◌, Option, ◌≡◌, ℕ, Bool, refl, some, none, true,
  false, ◌≤◌, ◌*◌, ◌+◌,
}

-- A query that was answered with a value.
abbrev pub Answered : (QueryResult → Metric → Type 0) → Option QueryResult → Type 0
Answered P query =
    (res : QueryResult) × (v : Metric) × (query ≡ some res)
    × (res.is_success ≡ true)
    × (res.value ≡ some v)
    × P res v

abbrev pub Fresh : MetricProfile → QueryResult → Type 0
Fresh profile res =
    (age : ℕ) → res.freshness ≡ some age → age ≤ profile.sample_freshness_limit_seconds

-- Python compares no number with NaN, so that NaN is within each limit.
abbrev pub Unsaturated : MetricProfile → Metric → Type 0
Unsaturated profile (amount rate) = rate * 100 ≤ profile.max_saturation * profile.cpu_budget_cores
Unsaturated profile infinite = ⊥
Unsaturated profile not_a_number = Unit

abbrev pub CpuWithin : MetricProfile → Option QueryResult → Type 0
CpuWithin profile query =
    Answered (λ res v. Fresh profile res × (profile.cpu_budget_cores ≢ 0) × Unsaturated profile v)
      query

abbrev pub Ready : Telemetry → Type 0
Ready seen = (s : ℕ) → seen.started_at ≡ some s → s + 15 ≤ seen.now

pub fails_if_iff : (b : Bool) → (is_pass (fails_if b) ≡ true) ↔ (b ≡ false)
unfolding fails_if is_pass
fails_if_iff true = ((λ h. absurd (ground (arith, h))), λ h. absurd (ground (arith, h)))
fails_if_iff false = ((λ h. refl), λ h. refl)

saturation_iff :
    (profile : MetricProfile) (v : Metric)
    → (exceeds_saturation profile v ≡ false) ↔ Unsaturated profile v
unfolding exceeds_saturation
saturation_iff profile (amount r) = ((λ h. ground (arith, h)), λ h. ground (arith, h))
saturation_iff profile infinite = ((λ h. absurd (ground (arith, h))), λ h. absurd h)
saturation_iff profile not_a_number = ((λ h. tt), λ h. refl)

pub stale_iff :
    (profile : MetricProfile) (res : QueryResult)
    → (is_stale_sample profile res ≡ false) ↔ Fresh profile res
unfolding is_stale_sample
stale_iff profile res = (
  (λ h age here. ground (arith, h, here)),
  λ fresh. elim (Option-cases res.freshness) [
    | inl gone ↦ ground (arith, gone)
    | inr (age, here) ↦ let le = fresh age here in ground (arith, here, le)
  ],
)

pub check_counter_iff :
    (seen : Telemetry) → (check_counter_stability seen.started_at seen.now ≡ true) ↔ Ready seen
unfolding check_counter_stability
check_counter_iff seen = (
  (λ h s here. ground (arith, h, here)),
  λ ready. elim (Option-cases seen.started_at) [
    | inl gone ↦ ground (arith, gone)
    | inr (s, here) ↦ let le = ready s here in ground (arith, here, le)
  ],
)

pub cpu_iff :
    (profile : MetricProfile) (query : Option QueryResult)
    → (is_pass (evaluate_cpu profile true query) ≡ true) ↔ CpuWithin profile query
unfolding evaluate_cpu is_pass fails_if
cpu_iff profile none = (
  (λ h. absurd (ground (arith, h))),
  λ (res, v, here, ok, there, rest). absurd (ground (arith, here)),
)
cpu_iff profile (some res) = (
  (λ h. elim (Option-cases res.value) [
    | inl gone ↦ absurd (ground (arith, h, gone))
    | inr (v, there) ↦ (
      res,
      v,
      refl,
      ground (arith, h),
      there,
      (
        (stale_iff profile res).0 (ground (arith, h, there)),
        (λ none_left. ground (arith, h, there, none_left)),
        (saturation_iff profile v).0 (ground (arith, h, there)),
      ),
    )
  ]),
  λ (r, v, here, ok, there, (fresh, cores, calm)).
      let same : r ≡ res = ground (arith, here) in
      let value = subst (λ (x : QueryResult). x.value ≡ some v) same there in
      let success = subst (λ (x : QueryResult). x.is_success ≡ true) same ok in
      let now_fresh = (stale_iff profile res).1 (subst (Fresh profile) same fresh) in
      let low = (saturation_iff profile v).1 calm in
      ground (arith, value, success, now_fresh, low, cores),
)

-- An error rate at most the threshold, or none that Python compares.
abbrev pub AtMost : ErrorRate → ℕ → Type 0
AtMost (fraction e r) most = e * 10000 ≤ most * r
AtMost infinite_rate most = ⊥
AtMost no_rate most = Unit

-- A success rate at least the band.
abbrev pub AtLeast : ErrorRate → ℕ → Type 0
AtLeast (fraction e r) least = least * r + e * 10000 ≤ r * 10000
AtLeast infinite_rate least = ⊥
AtLeast no_rate least = Unit

-- A baseline band is what counts where there is one, or else a ceiling of server errors, or else the
-- general one.
abbrev pub ErrorsWithin : Option ℕ → Option ℕ → Option ℕ → ErrorRate → Type 0
ErrorsWithin (some least) ceiling general rate = AtLeast rate least
ErrorsWithin none (some most) general rate = AtMost rate most
ErrorsWithin none none general rate = AtMost rate (default_threshold general)

abbrev pub Enough : MetricProfile → Metric → Type 0
Enough profile (amount rate) = profile.min_requests_per_window * 1000000 ≤ rate * 60
Enough profile _ = Unit

-- The error query was answered; where it has no value, the rate is 0.
abbrev pub FewErrors : MetricProfile → Option QueryResult → Metric → Type 0
FewErrors profile errors requests =
    (res : QueryResult) × (errors ≡ some res)
    × (res.is_success ≡ true)
    × ErrorsWithin profile.baseline_success_rate_min profile.max_5xx_error_rate
        profile.max_error_rate (error_rate_of res.value requests)

abbrev pub TrafficWithin : MetricProfile → Option QueryResult → Option QueryResult → Type 0
TrafficWithin profile total errors =
    Answered (λ res v. Fresh profile res × Enough profile v × FewErrors profile errors v) total

exceeds_iff : (rate : ErrorRate) (most : ℕ) → (exceeds rate most ≡ false) ↔ AtMost rate most
unfolding exceeds
exceeds_iff (fraction e r) most = ((λ h. ground (arith, h)), λ h. ground (arith, h))
exceeds_iff infinite_rate most = ((λ h. absurd (ground (arith, h))), λ h. absurd h)
exceeds_iff no_rate most = ((λ h. tt), λ h. refl)

falls_below_iff :
    (rate : ErrorRate) (least : ℕ) → (falls_below rate least ≡ false) ↔ AtLeast rate least
unfolding falls_below
falls_below_iff (fraction e r) least = ((λ h. ground (arith, h)), λ h. ground (arith, h))
falls_below_iff infinite_rate least = ((λ h. absurd (ground (arith, h))), λ h. absurd h)
falls_below_iff no_rate least = ((λ h. tt), λ h. refl)

pub few_iff :
    (profile : MetricProfile) (v : Metric) → (too_few profile v ≡ false) ↔ Enough profile v
unfolding too_few
few_iff profile (amount rate) = ((λ h. ground (arith, h)), λ h. ground (arith, h))
few_iff profile infinite = ((λ h. tt), λ h. refl)
few_iff profile not_a_number = ((λ h. tt), λ h. refl)

pub chain_iff {ℓ κ κ'} : {A : Type ℓ} {B : Type κ} {C : Type κ'} → (A ↔ B) → (B ↔ C) → A ↔ C
chain_iff f g = ((λ a. g.0 (f.0 a)), λ c. f.1 (g.1 c))

pub judge_iff :
    (baseline ceiling general : Option ℕ) (rate : ErrorRate)
    → (is_pass (judge_errors baseline ceiling general rate) ≡ true)
      ↔ ErrorsWithin baseline ceiling general rate
unfolding judge_errors
judge_iff (some least) ceiling general rate =
    chain_iff (fails_if_iff (falls_below rate least)) (falls_below_iff rate least)
judge_iff none (some most) general rate =
    chain_iff (fails_if_iff (exceeds rate most)) (exceeds_iff rate most)
judge_iff none none general rate =
    chain_iff (fails_if_iff (exceeds rate (default_threshold general)))
      (exceeds_iff rate (default_threshold general))
