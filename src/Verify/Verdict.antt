-- ===== src/Verify/Verdict.antt =====
-- The verdict of `run_verification` and `_check_external_clearance`.
use self_healing_agent.Verify.Sample.{EvaluationSample, Target, VerificationProfile}
use self_healing_agent.Prelude.{
  ◌+◌, leb, none, some, [], ◌∷◌, length, if◌then◌else◌, has, some_and, false, String, ◌||◌, List,
  Bool, Option, ℕ,
}
use self_healing_agent.Verify.Session.{new_session, is_stable, observe, World, Session}

pub data RecoveryAttribution : Type 0 where
  agent_healed externally_recovered inconclusive : RecoveryAttribution

-- What `fault_status_provider` does for the scenario: there is none (or no scenario), it raises, or it
-- answers with the status that is read from its answer, if that has one.
pub data FaultAnswer : Type 0 where
  no_provider raised : FaultAnswer
  answered : Option String → FaultAnswer

pub record Fault : Type 0 where
  pub injected_at : Option ℕ
  pub ttl_seconds : Option ℕ
  pub answer : FaultAnswer
  pub fault_status_required : Bool

unfoldable pub ttl_expired : Option ℕ → Option ℕ → ℕ → Bool
ttl_expired (some injected) (some ttl) window_end = leb (injected + ttl) window_end
ttl_expired _ _ window_end = false

unfoldable pub cleared_outside : FaultAnswer → Bool → Bool
cleared_outside no_provider required = false
cleared_outside raised required = required
cleared_outside (answered status) required =
    some_and status (λ st. has ("expired" ∷ "cleared" ∷ []) st)

-- Whether `_check_external_clearance` returns a reason.
unfoldable pub check_external_clearance : Fault → ℕ → Bool
check_external_clearance fault window_end =
    ttl_expired fault.injected_at fault.ttl_seconds window_end
    || cleared_outside fault.answer fault.fault_status_required

pub data VerdictStatus : Type 0 where
  resolved verification_failed external : VerdictStatus

pub record VerificationVerdict : Type 0 where
  pub passed : Bool
  pub status : VerdictStatus
  pub attribution : RecoveryAttribution
  pub window_start : ℕ
  pub window_end : ℕ
  pub total_evaluations : ℕ
  pub consecutive_healthy_evaluations : ℕ
  pub elapsed_healthy_seconds : ℕ
  pub warm_up_duration_seconds : Option ℕ
  pub stabilization_resets : ℕ
  pub samples : List EvaluationSample

-- Lines 203 to 255; the profile's name and version, the score and the checks of the last sample, and the text of the reason, are left
-- out.
unfoldable pub conclude : VerificationProfile → World → Fault → ℕ → Session → VerificationVerdict
conclude profile world fault window_end s =
    let stable = is_stable profile s in
    let cleared = check_external_clearance fault window_end in
    record {
      passed = if cleared then false else stable;
      status = if cleared then external else if stable then resolved else verification_failed;
      attribution = if cleared then externally_recovered else agent_healed;
      window_start = world.window_start;
      window_end = window_end;
      total_evaluations = length s.samples;
      consecutive_healthy_evaluations = s.consecutive_healthy_evaluations;
      elapsed_healthy_seconds = s.elapsed_healthy_seconds;
      warm_up_duration_seconds = s.warm_up_duration_seconds;
      stabilization_resets = s.stabilization_resets;
      samples = s.samples;
    }

-- `run_verification`, with fuel for its loop.
unfoldable pub run_verification :
    ℕ → VerificationProfile → Target → World → Fault → ℕ → Option VerificationVerdict
run_verification fuel profile target world fault window_end =
    elim (observe fuel profile target world new_session) [
      | none ↦ none
      | some s ↦ some (conclude profile world fault window_end s)
    ]
