-- ===== src/Verify/Contract.antt =====
-- The contract of a sample: evaluator.py with every check in it.
use self_healing_agent.Verify.Sample.{Probe, Target, VerificationProfile, ContainerState, Response}
use self_healing_agent.Verify.Thresholds.{CpuWithin, Ready, TrafficWithin}
use self_healing_agent.Verify.Passing.{LatencyWithin, AlertsWithin}
use self_healing_agent.Prelude.{◌∙◌, ◌∙◌, ◌⊎◌, ◌≢◌, ℕ, str_eq, String, ◌≡◌, some, false, ◌≤◌}

-- The container that was acted upon, where it is known, at its generation, and running.
pub record IsTarget (target : Target) (state : ContainerState) : Type 0 where
  pub container :
      (t : String)
      → target.target_container_id ≡ some t
      → str_eq t "" ≡ false
      → state.container_id ≡ t
  pub generation :
      (g : ℕ) → target.binding_generation ≡ some g → g ≢ 0 → state.binding_generation ≡ g
  pub status : (state.status ≡ "running") ⊎ (state.status ≡ "up")

pub record IsMet (profile : VerificationProfile) (target : Target) (probe : Probe) : Type 0 where
  pub state : ContainerState
  pub observed : probe.container ≡ some state
  pub bound : IsTarget target state
  pub response : Response
  pub answered : probe.readiness ≡ some response
  pub expected : response.status_code ≡ profile.expected_status
  pub in_time : response.elapsed ≤ profile.max_latency
  pub settled : Ready probe.telemetry
  pub cpu : CpuWithin profile.metrics probe.telemetry.cpu_rate
  pub traffic : TrafficWithin profile.metrics probe.telemetry.total_rate probe.telemetry.error_rate
  pub latency : LatencyWithin profile.metrics.max_p95_latency probe.telemetry.p95_latency
  pub alerts : AlertsWithin profile.metrics probe.telemetry.active_alerts
