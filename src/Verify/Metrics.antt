-- ===== src/Verify/Metrics.antt =====
-- The four checks of evaluator.py that read Prometheus. Metric values are millionths, ratios and cores
-- ten-thousandths, times seconds; Python's floats are taken as exact.
use self_healing_agent.Text.{lower, codes, codes_eq}
use self_healing_agent.Prelude.{
  has, any, is_empty, false, ltb, some_and, ◌==◌, List, true, ℕ, String, Option, Bool,
  if◌then◌else◌, some, none, ◌&&◌, ◌||◌, not, ◌*◌, ◌+◌,
}

pub data CheckStatus : Type 0 where
  pass fail unknown : CheckStatus

-- A sample's value: from 0 on, or what Prometheus writes as "+Inf" and "NaN".
pub data Metric : Type 0 where
  amount : ℕ → Metric
  infinite not_a_number : Metric

-- The answer of `query_instant`; no value where it has no sample.
pub record QueryResult : Type 0 where
  pub is_success : Bool
  pub value : Option Metric
  pub freshness : Option ℕ

-- An active alert: its name and its state.
abbrev pub Alert : Type 0
Alert = String × String

-- What the checks read; `none` where the query raised.
pub record Telemetry : Type 0 where
  pub started_at : Option ℕ
  pub now : ℕ
  pub cpu_rate : Option QueryResult
  pub total_rate : Option QueryResult
  pub error_rate : Option QueryResult
  pub p95_latency : Option QueryResult
  pub active_alerts : Option (List Alert)

-- `profile.cpu`, `traffic` and `alerts`, with the defaults of `get`, and the freshness limit.
pub record MetricProfile : Type 0 where
  pub sample_freshness_limit_seconds : ℕ
  pub max_saturation : ℕ
  pub cpu_budget_cores : ℕ
  pub min_requests_per_window : ℕ
  pub max_error_rate : Option ℕ
  pub baseline_success_rate_min : Option ℕ
  pub max_5xx_error_rate : Option ℕ
  pub max_p95_latency : Option ℕ
  pub prohibited_active_alerts : List String

-- `_check_counter_stability`
unfoldable pub check_counter_stability : Option ℕ → ℕ → Bool
check_counter_stability none now = true
check_counter_stability (some started) now = not (ltb now (started + 15))

unfoldable pub is_stale_sample : MetricProfile → QueryResult → Bool
is_stale_sample profile res =
    some_and res.freshness (λ f. not (f == 0) && ltb profile.sample_freshness_limit_seconds f)

-- `fail if exceeded else pass`
unfoldable pub fails_if : Bool → CheckStatus
fails_if true = fail
fails_if false = pass

-- `saturation > max_sat`
unfoldable pub exceeds_saturation : MetricProfile → Metric → Bool
exceeds_saturation profile (amount rate) =
    ltb (profile.max_saturation * profile.cpu_budget_cores) (rate * 100)
exceeds_saturation profile infinite = true
exceeds_saturation profile not_a_number = false

-- `_evaluate_cpu`; no cores at all are a ZeroDivisionError.
unfoldable pub evaluate_cpu : MetricProfile → Bool → Option QueryResult → CheckStatus
evaluate_cpu profile ready none = unknown
evaluate_cpu profile ready (some res) =
    if not ready || not res.is_success then unknown else elim res.value [
      | none ↦ unknown
      | some value ↦
          if is_stale_sample profile res || profile.cpu_budget_cores == 0
          then unknown
          else fails_if (exceeds_saturation profile value)
    ]

-- `err_rate`: a fraction, or a float that is none.
pub data ErrorRate : Type 0 where
  fraction : ℕ → ℕ → ErrorRate
  infinite_rate no_rate : ErrorRate

unfoldable pub divide : Metric → Metric → ErrorRate
divide (amount e) (amount r) = if r == 0 then fraction 0 1 else fraction e r
divide infinite (amount r) = if r == 0 then fraction 0 1 else infinite_rate
divide not_a_number (amount r) = if r == 0 then fraction 0 1 else no_rate
divide (amount e) infinite = fraction 0 1
divide infinite infinite = no_rate
divide not_a_number infinite = no_rate
divide e not_a_number = fraction 0 1

unfoldable pub error_rate_of : Option Metric → Metric → ErrorRate
error_rate_of none total = fraction 0 1
error_rate_of (some errors) total = divide errors total

-- `err_rate > threshold`
unfoldable pub exceeds : ErrorRate → ℕ → Bool
exceeds (fraction e r) threshold = ltb (threshold * r) (e * 10000)
exceeds infinite_rate threshold = true
exceeds no_rate threshold = false

-- `1.0 - err_rate < least`
unfoldable pub falls_below : ErrorRate → ℕ → Bool
falls_below (fraction e r) least = ltb (r * 10000) (least * r + e * 10000)
falls_below infinite_rate least = true
falls_below no_rate least = false

-- `max_error_rate or 0.02`
unfoldable pub default_threshold : Option ℕ → ℕ
default_threshold none = 200
default_threshold (some t) = if t == 0 then 200 else t

-- The baseline band, where there is one, or else the ceiling of server errors, or else the general one.
unfoldable pub judge_errors : Option ℕ → Option ℕ → Option ℕ → ErrorRate → CheckStatus
judge_errors (some least) ceiling general rate = fails_if (falls_below rate least)
judge_errors none (some most) general rate = fails_if (exceeds rate most)
judge_errors none none general rate = fails_if (exceeds rate (default_threshold general))

-- `window_requests < min_requests`
unfoldable pub too_few : MetricProfile → Metric → Bool
too_few profile (amount rate) = ltb (rate * 60) (profile.min_requests_per_window * 1000000)
too_few profile _ = false

-- `_evaluate_traffic_error_rate`
unfoldable pub evaluate_traffic :
    MetricProfile → Bool → Option QueryResult → Option QueryResult → CheckStatus
evaluate_traffic profile ready none errors = unknown
evaluate_traffic profile ready (some total) errors =
    if not ready || not total.is_success then unknown else elim total.value [
      | none ↦ unknown
      | some requests ↦
          if is_stale_sample profile total || too_few profile requests
          then unknown
          else elim errors [
            | none ↦ unknown
            | some res ↦
                if res.is_success
                then judge_errors profile.baseline_success_rate_min profile.max_5xx_error_rate
                    profile.max_error_rate (error_rate_of res.value requests)
                else unknown
          ]
    ]

-- `val > max_lat`
unfoldable pub exceeds_latency : Metric → ℕ → Bool
exceeds_latency (amount v) most = ltb most v
exceeds_latency infinite most = true
exceeds_latency not_a_number most = false

-- `_evaluate_latency`
unfoldable pub evaluate_latency : MetricProfile → Bool → Option QueryResult → CheckStatus
evaluate_latency profile ready query = elim profile.max_p95_latency [
  | none ↦ pass
  | some most ↦ if not ready then unknown else elim query [
    | none ↦ unknown
    | some res ↦
        if not res.is_success
        then unknown
        else elim res.value [ none ↦ unknown | some value ↦ fails_if (exceeds_latency value most) ]
  ]
]

-- `_evaluate_alerts`
unfoldable pub evaluate_alerts : MetricProfile → Option (List Alert) → CheckStatus
evaluate_alerts profile alerts =
    if is_empty profile.prohibited_active_alerts then pass else elim alerts [
      | none ↦ unknown
      | some active ↦ fails_if (
          any
            (λ a. has profile.prohibited_active_alerts a.0 && codes_eq (lower a.1) (codes "firing"))
            active)
    ]
