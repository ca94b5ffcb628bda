-- ===== src/Verify/Session.antt =====
-- The loop of `IndependentVerifier.run_verification` (verifier.py).
use self_healing_agent.Prelude.{
  zero, false, [], suc, ◌||◌, some, ◌-◌, ltb, true, none, ◌∷◌, ◌&&◌, not, leb, ◌++◌, Option, Bool,
  if◌then◌else◌, ℕ, ◌+◌, List,
}
use self_healing_agent.Verify.Sample.{
  evaluate_sample, Target, EvaluationSample, VerificationProfile, Probe,
}

-- What the loop reads: the clock at the head of its k-th round and after a sample, and the k-th probe.
-- Times are seconds.
pub record World : Type 0 where
  pub window_start : ℕ
  pub clock : ℕ → ℕ
  pub clock_after : ℕ → ℕ
  pub probe : ℕ → Probe

-- The variables of the loop.
pub record Session : Type 0 where
  pub samples : List EvaluationSample
  pub warm_up_duration_seconds : Option ℕ
  pub readiness_consecutive_successes : ℕ
  pub prerequisite_satisfied : Bool
  pub elapsed_healthy_seconds : ℕ
  pub consecutive_healthy_evaluations : ℕ
  pub stabilization_resets : ℕ
  pub sample_index : ℕ

abbrev pub new_session : Session
new_session = record {
  samples = [];
  warm_up_duration_seconds = none;
  readiness_consecutive_successes = 0;
  prerequisite_satisfied = false;
  elapsed_healthy_seconds = 0;
  consecutive_healthy_evaluations = 0;
  stabilization_resets = 0;
  sample_index = 0;
}

-- The sample that a round appends (lines 141 to 151).
unfoldable pub sampled : VerificationProfile → Target → World → Session → EvaluationSample
sampled profile target world s =
    evaluate_sample profile target (world.probe s.sample_index) s.sample_index
      s.elapsed_healthy_seconds s.readiness_consecutive_successes

unfoldable pub record_sample : EvaluationSample → Session → Session
record_sample sample s = record s {
  samples = s.samples ++ sample ∷ [];
  readiness_consecutive_successes = sample.readiness_consecutive_successes;
}

-- Phase 1: the readiness prerequisite.
unfoldable pub warm_up : VerificationProfile → World → Session → Session
warm_up profile world s =
    if s.prerequisite_satisfied
    then s
    else if leb profile.required_consecutive_successes s.readiness_consecutive_successes
    then record s {
      prerequisite_satisfied = true;
      warm_up_duration_seconds = some (world.clock_after s.sample_index - world.window_start);
    }
    else record s { elapsed_healthy_seconds = 0; consecutive_healthy_evaluations = 0 }

-- Phase 2: stabilization.
unfoldable pub stabilize : VerificationProfile → EvaluationSample → Session → Session
stabilize profile sample s =
    if not s.prerequisite_satisfied
    then s
    else if sample.all_passed
    then record s {
      elapsed_healthy_seconds = s.elapsed_healthy_seconds + profile.evaluation_interval_seconds;
      consecutive_healthy_evaluations = s.consecutive_healthy_evaluations + 1;
    }
    else record s {
      elapsed_healthy_seconds = 0;
      consecutive_healthy_evaluations = 0;
      stabilization_resets =
          if ltb 0 s.elapsed_healthy_seconds || ltb 0 s.consecutive_healthy_evaluations
          then s.stabilization_resets + 1
          else s.stabilization_resets;
    }

-- The test of lines 181 to 184, and of 204 to 207.
unfoldable pub is_stable : VerificationProfile → Session → Bool
is_stable profile s =
    leb profile.stabilization_window_seconds s.elapsed_healthy_seconds
    && leb profile.min_consecutive_passing_samples s.consecutive_healthy_evaluations

unfoldable pub round : VerificationProfile → Target → World → Session → Session
round profile target world s =
    let sample = sampled profile target world s in
    stabilize profile sample (warm_up profile world (record_sample sample s))

-- `break` in the middle of a round.
unfoldable pub breaks : VerificationProfile → EvaluationSample → Session → Bool
breaks profile sample s = s.prerequisite_satisfied && sample.all_passed && is_stable profile s

unfoldable pub is_over : VerificationProfile → World → Session → Bool
is_over profile world s =
    leb profile.max_verification_duration_seconds (world.clock s.sample_index - world.window_start)

unfoldable pub next_index : Session → Session
next_index s = record s { sample_index = s.sample_index + 1 }

-- `while True`, on fuel; `none` is a run that needs more.
unfoldable pub observe : ℕ → VerificationProfile → Target → World → Session → Option Session
observe zero profile target world s = none
observe (suc n) profile target world s =
    let after = round profile target world s in
    let rest = observe n profile target world (next_index after) in
    if is_over profile world s
    then some s
    else if breaks profile (sampled profile target world s) after
    then some after
    else rest
