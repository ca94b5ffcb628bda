-- ===== src/Verify/Sample.antt =====
-- `TelemetryEvaluator.evaluate_sample` (evaluator.py) and the models of sharedmodels/verification.py.
use self_healing_agent.Prelude.{
  none, [], ◌∷◌, has, ltb, some, ◌==◌, str_eq, not, ◌+◌, false, some_and, if◌then◌else◌, ◌&&◌, true,
  String, Option, ℕ, Bool,
}
pub use self_healing_agent.Verify.Metrics.{CheckStatus, pass, fail, unknown}
use self_healing_agent.Verify.Metrics.{
  Telemetry, MetricProfile, check_counter_stability, evaluate_cpu, evaluate_traffic,
  evaluate_latency, evaluate_alerts,
}

unfoldable pub is_pass : CheckStatus → Bool
is_pass pass = true
is_pass _ = false

-- The container's state as observed, with the defaults of `container_state.get`. `status` is in lower
-- case.
pub record ContainerState : Type 0 where
  pub container_id : String
  pub binding_generation : ℕ
  pub status : String

-- The answer of the readiness probe: its HTTP status, and the milliseconds that it took.
pub record Response : Type 0 where
  pub status_code : ℕ
  pub elapsed : ℕ

-- What one evaluation reads: `none` where there is no observation, or the probe raised.
pub record Probe : Type 0 where
  pub container : Option ContainerState
  pub readiness : Option Response
  pub telemetry : Telemetry

-- `profile.readiness` and the profile's times, in seconds; `max_latency` is in milliseconds.
pub record VerificationProfile : Type 0 where
  pub evaluation_interval_seconds : ℕ
  pub stabilization_window_seconds : ℕ
  pub min_consecutive_passing_samples : ℕ
  pub max_verification_duration_seconds : ℕ
  pub required_consecutive_successes : ℕ
  pub max_latency : ℕ
  pub expected_status : ℕ
  pub metrics : MetricProfile

-- The container and the binding generation that were acted upon. Python's `if target_container_id` and
-- `if binding_generation` pass over an empty text and a zero as over None.
pub record Target : Type 0 where
  pub target_container_id : Option String
  pub binding_generation : Option ℕ

pub record Checks : Type 0 where
  pub target_identity : CheckStatus
  pub readiness : CheckStatus
  pub cpu_saturation : CheckStatus
  pub business_traffic : CheckStatus
  pub business_latency : CheckStatus
  pub alerts : CheckStatus

pub record EvaluationSample : Type 0 where
  pub sample_index : ℕ
  pub elapsed_healthy_seconds : ℕ
  pub readiness_consecutive_successes : ℕ
  pub all_passed : Bool
  pub checks : Checks

unfoldable pub other_container : Option String → String → Bool
other_container wanted cid = some_and wanted (λ t. not (str_eq t "") && not (str_eq cid t))

unfoldable pub other_generation : Option ℕ → ℕ → Bool
other_generation wanted gen = some_and wanted (λ g. not (g == 0) && not (gen == g))

-- `_evaluate_target_state`
unfoldable pub evaluate_target_state : Target → Option ContainerState → CheckStatus
evaluate_target_state target none = unknown
evaluate_target_state target (some state) =
    if other_container target.target_container_id state.container_id
    then fail
    else if other_generation target.binding_generation state.binding_generation
    then fail
    else if not (has ("running" ∷ "up" ∷ []) state.status)
    then fail
    else pass

-- `_evaluate_readiness`
unfoldable pub evaluate_readiness : VerificationProfile → Option Response → CheckStatus
evaluate_readiness profile none = fail
evaluate_readiness profile (some response) =
    if not (response.status_code == profile.expected_status)
    then fail
    else if ltb profile.max_latency response.elapsed
    then fail
    else pass

-- The dictionary `checks`.
unfoldable pub checks_of : VerificationProfile → Target → Probe → Checks
checks_of profile target probe =
    let seen = probe.telemetry in
    let ready = check_counter_stability seen.started_at seen.now in
    record {
      target_identity = evaluate_target_state target probe.container;
      readiness = evaluate_readiness profile probe.readiness;
      cpu_saturation = evaluate_cpu profile.metrics ready seen.cpu_rate;
      business_traffic = evaluate_traffic profile.metrics ready seen.total_rate seen.error_rate;
      business_latency = evaluate_latency profile.metrics ready seen.p95_latency;
      alerts = evaluate_alerts profile.metrics seen.active_alerts;
    }

-- `all(c.status == CheckStatus.PASS for c in checks.values())`
unfoldable pub all_pass : Checks → Bool
all_pass c =
    is_pass c.target_identity
    && is_pass c.readiness
    && is_pass c.cpu_saturation
    && is_pass c.business_traffic
    && is_pass c.business_latency
    && is_pass c.alerts

-- `evaluate_sample`
unfoldable pub evaluate_sample : VerificationProfile → Target → Probe → ℕ → ℕ → ℕ → EvaluationSample
evaluate_sample profile target probe index elapsed successes =
    let checks = checks_of profile target probe in
    record {
      sample_index = index;
      elapsed_healthy_seconds = elapsed;
      readiness_consecutive_successes = if is_pass checks.readiness then successes + 1 else 0;
      all_passed = all_pass checks;
      checks = checks;
    }
