-- ===== src/Verify/Tests.antt =====
-- A container that is healthy from the start, under a short profile.
use self_healing_agent.Text.{lower_code, lower}
use self_healing_agent.Verify.Metrics.{
  evaluate_alerts, exceeds_latency, evaluate_latency, exceeds, judge_errors, divide, error_rate_of,
  too_few, evaluate_traffic, fails_if, exceeds_saturation, is_stale_sample, amount, QueryResult,
  evaluate_cpu, MetricProfile, Telemetry, check_counter_stability,
}
use self_healing_agent.Verify.Healthy.{healthy-passes, InTime, IsHealthy, IsEnough}
use self_healing_agent.Prelude.{ℕ, false, [], refl, ◌∷◌, ◌*◌, ◌+◌, true, some, arith, none, ◌≡◌}
use self_healing_agent.Verify.Recovery.{run_verification-total, IsSteady}
use self_healing_agent.Verify.Sample.{
  other_generation, other_container, evaluate_readiness, evaluate_target_state, is_pass, all_pass,
  checks_of, pass, EvaluationSample, VerificationProfile, Probe, Target,
}
use self_healing_agent.Verify.Session.{World}
use self_healing_agent.Verify.Verdict.{
  cleared_outside, ttl_expired, check_external_clearance, agent_healed, answered, resolved,
  VerificationVerdict, run_verification, Fault,
}

-- The metrics of a scenario with a ceiling for server errors.
abbrev metric_profile : MetricProfile
metric_profile = record {
  sample_freshness_limit_seconds = 30;
  max_saturation = 7500;
  cpu_budget_cores = 10000;
  min_requests_per_window = 20;
  max_error_rate = none;
  baseline_success_rate_min = none;
  max_5xx_error_rate = some 100;
  max_p95_latency = some 500000;
  prohibited_active_alerts = "HighCpuSaturation" ∷ [];
}

abbrev answer : ℕ → QueryResult
answer n = record { is_success = true; value = some (amount n); freshness = some 5 }

-- A fifth of a core, two requests a second, no error, and a resolved alert.
abbrev calm : Telemetry
calm = record {
  started_at = some 900;
  now = 1000;
  cpu_rate = some (answer 200000);
  total_rate = some (answer 2000000);
  error_rate = some (answer 0);
  p95_latency = some (answer 40000);
  active_alerts = some (("HighCpuSaturation", "Pending") ∷ []);
}

abbrev short_profile : VerificationProfile
short_profile = record {
  evaluation_interval_seconds = 15;
  stabilization_window_seconds = 30;
  min_consecutive_passing_samples = 2;
  max_verification_duration_seconds = 60;
  required_consecutive_successes = 1;
  max_latency = 200;
  expected_status = 200;
  metrics = metric_profile;
}

abbrev target : Target
target = record { target_container_id = some "0123456789ab"; binding_generation = some 1 }

abbrev healthy : Probe
healthy = record {
  container =
      some (record { container_id = "0123456789ab"; binding_generation = 1; status = "running" });
  readiness = some (record { status_code = 200; elapsed = 20 });
  telemetry = calm;
}

abbrev world : World
world = record {
  window_start = 1000;
  clock = λ k. 1000 + k * 15;
  clock_after = λ k. 1000 + k * 15;
  probe = λ k. healthy;
}

abbrev no_fault : Fault
no_fault = record {
  injected_at = none;
  ttl_seconds = none;
  answer = answered (some "active");
  fault_status_required = true;
}

steady : IsSteady short_profile world
steady k = omega arith

run_verification-total_example :
    (v : VerificationVerdict) × (run_verification 61 short_profile target world no_fault 1030
      ≡ some v)
run_verification-total_example =
    run_verification-total short_profile target world no_fault 1030 (omega arith) steady

abbrev first : EvaluationSample
first = record {
  sample_index = 0;
  elapsed_healthy_seconds = 0;
  readiness_consecutive_successes = 1;
  all_passed = true;
  checks = record {
    target_identity = pass;
    readiness = pass;
    cpu_saturation = pass;
    business_traffic = pass;
    business_latency = pass;
    alerts = pass;
  };
}

abbrev second : EvaluationSample
second = record first {
  sample_index = 1;
  elapsed_healthy_seconds = 15;
  readiness_consecutive_successes = 2;
}

abbrev verdict : VerificationVerdict
verdict = record {
  passed = true;
  status = resolved;
  attribution = agent_healed;
  window_start = 1000;
  window_end = 1030;
  total_evaluations = 2;
  consecutive_healthy_evaluations = 2;
  elapsed_healthy_seconds = 30;
  warm_up_duration_seconds = some 0;
  stabilization_resets = 0;
  samples = first ∷ second ∷ [];
}

all-IsHealthy : IsHealthy short_profile target world
unfolding checks_of all_pass is_pass evaluate_target_state evaluate_readiness other_container
    other_generation check_counter_stability evaluate_cpu is_stale_sample exceeds_saturation
    fails_if evaluate_traffic too_few error_rate_of divide judge_errors exceeds evaluate_latency
    exceeds_latency evaluate_alerts lower lower_code
all-IsHealthy k = refl

two-IsEnough : IsEnough short_profile 2
two-IsEnough = record { samples = omega arith; window = omega arith }

in_time : InTime short_profile world (1 + 2)
in_time k le = omega (arith, le)

uncleared : check_external_clearance no_fault 1030 ≡ false
unfolding check_external_clearance ttl_expired cleared_outside
uncleared = refl

healthy-passes_example :
    (v : VerificationVerdict) × (run_verification 4 short_profile target world no_fault 1030
      ≡ some v)
    × (v.passed ≡ true)
healthy-passes_example =
    healthy-passes 2 short_profile target world no_fault 1030 all-IsHealthy two-IsEnough
      (omega arith) in_time uncleared
