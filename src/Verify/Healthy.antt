-- ===== src/Verify/Healthy.antt =====
-- A target that stays healthy is found healthy.
use self_healing_agent.Verify.Verdict.{
  VerificationVerdict, check_external_clearance, Fault, conclude, run_verification,
}
use native.Mathlib.Nat.{mul-le-mul_right}
use self_healing_agent.Verify.Recovery.{observe-break, observe-next, next-index}
use self_healing_agent.Verify.Streaks.{next-IsSound, empty-IsSound, round-IsSound, IsSound}
use self_healing_agent.Prelude.{
  ◌||◌, leb, inr, inl, some, Bool-cases, ◌*◌, ◌≤◌, suc, zero, refl, sym, ◌∙◌, leb→le, true≢false,
}
use self_healing_agent.Prelude.{arith, ◌⊎◌, ◌<◌, false, ◌≤◌, ◌+◌, ◌-◌, true, ◌≡◌, if◌then◌else◌, ℕ}
use self_healing_agent.Verify.Session.{
  new_session, next_index, observe, round, sampled, is_over, is_stable, breaks, record_sample,
  warm_up, stabilize, World, Session,
}
use self_healing_agent.Verify.Sample.{
  evaluate_sample, checks_of, all_pass, EvaluationSample, Target, VerificationProfile,
}

-- Every probe passes every check.
abbrev pub IsHealthy : VerificationProfile → Target → World → Type 0
IsHealthy profile target world =
    (k : ℕ) → all_pass (checks_of profile target (world.probe k)) ≡ true

-- The rounds that a session still needs at most, where every sample passes and `enough` samples cover
-- the profile's window.
unfoldable pub rounds_left : ℕ → VerificationProfile → Session → ℕ
rounds_left enough profile s =
    (if s.prerequisite_satisfied
      then 0
      else profile.required_consecutive_successes - s.readiness_consecutive_successes)
    + (enough - s.consecutive_healthy_evaluations)

-- As many samples as the profile asks for, at an interval each as long as its window.
pub record IsEnough (profile : VerificationProfile) (enough : ℕ) : Type 0 where
  pub samples : profile.min_consecutive_passing_samples ≤ enough
  pub window : profile.stabilization_window_seconds ≤ enough * profile.evaluation_interval_seconds

abbrev round_on : VerificationProfile → World → EvaluationSample → Session → Session
round_on profile world sample s =
    stabilize profile sample (warm_up profile world (record_sample sample s))

-- What a round does with a passing sample.
module _ (profile : VerificationProfile) (world : World) (sample : EvaluationSample) (s : Session)
    (pass : sample.all_passed ≡ true)
    (count : sample.readiness_consecutive_successes ≡ s.readiness_consecutive_successes + 1) where
  abbrev after_round : Session
  after_round = round_on profile world sample s

  counted :
      (s.prerequisite_satisfied
          || leb profile.required_consecutive_successes (s.readiness_consecutive_successes + 1))
        ≡ true
      → (after_round.prerequisite_satisfied ≡ true)
        × (after_round.consecutive_healthy_evaluations ≡ s.consecutive_healthy_evaluations + 1)
        × (breaks profile sample after_round ≡ is_stable profile after_round)
  unfolding stabilize warm_up record_sample breaks
  counted met = ground (arith, pass, count, met)

  warming :
      (enough : ℕ)
      → (s.prerequisite_satisfied
          || leb profile.required_consecutive_successes (s.readiness_consecutive_successes + 1))
        ≡ false
      → s.consecutive_healthy_evaluations ≡ 0
      → rounds_left enough profile after_round < rounds_left enough profile s
  unfolding stabilize warm_up record_sample rounds_left
  warming enough few c = ground (arith, count, few, c)

  unready :
      (s.prerequisite_satisfied
          || leb profile.required_consecutive_successes (s.readiness_consecutive_successes + 1))
        ≡ false
      → s.prerequisite_satisfied ≡ false
  unready few = ground (arith, few)

  counted-fewer :
      (enough : ℕ)
      → after_round.prerequisite_satisfied ≡ true
      → after_round.consecutive_healthy_evaluations ≡ s.consecutive_healthy_evaluations + 1
      → after_round.consecutive_healthy_evaluations < enough
      → rounds_left enough profile after_round < rounds_left enough profile s
  unfolding rounds_left
  counted-fewer enough on more few = ground (arith, on, more, few)

enough-is_stable :
    (profile : VerificationProfile) (enough : ℕ) (s : Session)
    → IsEnough profile enough
    → IsSound profile s
    → enough ≤ s.consecutive_healthy_evaluations
    → is_stable profile s ≡ true
unfolding is_stable
enough-is_stable profile enough s q h many =
    let far : enough * profile.evaluation_interval_seconds
        ≤ s.consecutive_healthy_evaluations * profile.evaluation_interval_seconds =
      mul-le-mul_right profile.evaluation_interval_seconds many in
    ground (arith, q.samples, q.window, h.time, far, many)

sample-passes :
    (profile : VerificationProfile) (target : Target) (world : World) (s : Session)
    → IsHealthy profile target world
    → ((sampled profile target world s).all_passed ≡ true)
      × ((sampled profile target world s).readiness_consecutive_successes
          ≡ s.readiness_consecutive_successes + 1)
unfolding sampled evaluate_sample all_pass
sample-passes profile target world s healthy =
    let h = healthy s.sample_index in (h, ground (arith, h))

-- With a passing sample, a round either breaks or brings the end nearer.
nearer :
    (enough : ℕ) (profile : VerificationProfile) (target : Target) (world : World) (s : Session)
    → IsHealthy profile target world
    → IsEnough profile enough
    → IsSound profile s
    → (breaks profile (sampled profile target world s) (round profile target world s) ≡ true)
      ⊎ (rounds_left enough profile (round profile target world s) < rounds_left enough profile s)
unfolding round
nearer enough profile target world s healthy q h =
    let sample = sampled profile target world s in
    let (good, count) = sample-passes profile target world s healthy in
    let after = round profile target world s in
    elim (Bool-cases (
      s.prerequisite_satisfied
      || leb profile.required_consecutive_successes (s.readiness_consecutive_successes + 1))) [
        | inr few ↦ inr (
            warming profile world sample s good count enough few
              (h.ready (unready profile world sample s good count few)))
        | inl met ↦
            let (on, more, same) = counted profile world sample s good count met in
            elim (Bool-cases (leb enough after.consecutive_healthy_evaluations)) [
              | inl many ↦ inl (
                  same
                  ∙ enough-is_stable profile enough after q (round-IsSound profile target world s h)
                      (leb→le _ _ many))
              | inr still ↦ inr (
                  counted-fewer profile world sample s good count enough on more
                    (ground (arith, still)))
            ]
      ]

-- The clock reads less than the longest duration in the rounds up to the last one asked for.
abbrev pub InTime : VerificationProfile → World → ℕ → Type 0
InTime profile world last =
    (k : ℕ)
    → k ≤ last
    → world.clock k < world.window_start + profile.max_verification_duration_seconds

in_time-is_over :
    (profile : VerificationProfile) (world : World) (s : Session)
    → 1 ≤ profile.max_verification_duration_seconds
    → world.clock s.sample_index < world.window_start + profile.max_verification_duration_seconds
    → is_over profile world s ≡ false
unfolding is_over
in_time-is_over profile world s m t = ground (arith, m, t)

breaks-is_stable :
    (profile : VerificationProfile) (sample : EvaluationSample) (s : Session)
    → breaks profile sample s ≡ true
    → is_stable profile s ≡ true
unfolding breaks
breaks-is_stable profile sample s h = ground (arith, h)

rounds_left-next :
    (enough : ℕ) (profile : VerificationProfile) (s : Session)
    → rounds_left enough profile (next_index s) ≡ rounds_left enough profile s
unfolding rounds_left next_index
rounds_left-next enough profile s = refl

observe-healthy :
    (n last enough : ℕ) (profile : VerificationProfile) (target : Target) (world : World)
    (s : Session)
    → IsHealthy profile target world
    → IsEnough profile enough
    → 1 ≤ profile.max_verification_duration_seconds
    → InTime profile world last
    → IsSound profile s
    → rounds_left enough profile s ≤ n
    → s.sample_index + n ≤ last
    → (r : Session) × (observe (suc n) profile target world s ≡ some r)
      × (is_stable profile r ≡ true)
observe-healthy zero last enough profile target world s healthy q m t h few upto =
    let on_time = in_time-is_over profile world s m (t s.sample_index (omega (arith, upto))) in
    elim (nearer enough profile target world s healthy q h) [
      | inl stop ↦ (
        _,
        observe-break zero profile target world s on_time stop,
        breaks-is_stable profile (sampled profile target world s) (round profile target world s)
            stop,
      )
      | inr less ↦ absurd (omega (arith, less, few))
    ]
observe-healthy (suc n) last enough profile target world s healthy q m t h few upto =
    let on_time = in_time-is_over profile world s m (t s.sample_index (omega (arith, upto))) in
    let after = round profile target world s in
    let sample = sampled profile target world s in
    elim (Bool-cases (breaks profile sample after)) [
      | inl stop ↦ (
        after,
        observe-break (suc n) profile target world s on_time stop,
        breaks-is_stable profile sample after stop,
      )
      | inr on ↦ elim (nearer enough profile target world s healthy q h) [
        | inl stop ↦ absurd (true≢false (sym stop ∙ on))
        | inr less ↦
            let index = next-index (suc n) profile target world s in
            let same = rounds_left-next enough profile after in
            let (r, rest, stable) =
              observe-healthy n last enough profile target world (next_index after) healthy q m t
                (next-IsSound profile after (round-IsSound profile target world s h))
                (omega (arith, less, few, same)) (omega (arith, upto, index)) in
            (r, observe-next (suc n) profile target world s on_time on ∙ rest, stable)
      ]
    ]

-- Where every probe passes, `enough` samples are what the profile asks for, and the clock leaves time
-- for as many rounds and one for each readiness success, the verification passes, unless the fault
-- expired or was cleared from outside.
pub healthy-passes :
    (enough : ℕ) (profile : VerificationProfile) (target : Target) (world : World) (fault : Fault)
    (window_end : ℕ)
    → IsHealthy profile target world
    → IsEnough profile enough
    → 1 ≤ profile.max_verification_duration_seconds
    → InTime profile world (profile.required_consecutive_successes + enough)
    → check_external_clearance fault window_end ≡ false
    → (v : VerificationVerdict) × (run_verification
          (suc (profile.required_consecutive_successes + enough))
          profile
          target
          world
          fault
          window_end
        ≡ some v)
      × (v.passed ≡ true)
unfolding run_verification conclude rounds_left
healthy-passes enough profile target world fault window_end healthy q m t ours =
    let last = profile.required_consecutive_successes + enough in
    let (s, done, stable) =
      observe-healthy last last enough profile target world new_session healthy q m t
        (empty-IsSound profile new_session refl refl) (omega arith) (omega arith) in
    (
      conclude profile world fault window_end s,
      rw (done, run_verification) refl,
      ground (arith, ours, stable),
    )
