-- ===== src/Verify/Recovery.antt =====
-- When a verification passes, and that it ends.
use native.Mathlib.Nat.{le-mul_of_pos_right}
use self_healing_agent.Verify.Sample.{EvaluationSample, Target, VerificationProfile}
use self_healing_agent.Prelude.{
  zero, Bool, refl, inr, inl, ap, length, ◌∙◌, All, false, Bool-cases, ◌++◌, arith, suc, some, true,
  ◌*◌, List, ◌≤◌, ◌+◌, ◌≡◌, ℕ,
}
use self_healing_agent.Verify.Verdict.{
  agent_healed, resolved, check_external_clearance, run_verification, VerificationVerdict, Fault,
  conclude,
}
use self_healing_agent.Verify.Session.{
  sampled, breaks, next_index, new_session, record_sample, observe, warm_up, World, Session,
  stabilize, round, is_over,
}

-- What a passed verification stands on.
pub record IsRecovered (profile : VerificationProfile) (fault : Fault) (v : VerificationVerdict)
    : Type 0 where
  pub earlier : List EvaluationSample
  pub streak : List EvaluationSample
  pub split : v.samples ≡ earlier ++ streak
  pub healthy : All (λ (x : EvaluationSample). x.all_passed ≡ true) streak
  pub enough : profile.min_consecutive_passing_samples ≤ length streak
  pub long :
      profile.stabilization_window_seconds ≤ length streak * profile.evaluation_interval_seconds
  pub ours : check_external_clearance fault v.window_end ≡ false
  pub said : (v.status ≡ resolved) × (v.attribution ≡ agent_healed)

round-index :
    (profile : VerificationProfile) (target : Target) (world : World) (s : Session)
    → (round profile target world s).sample_index ≡ s.sample_index
unfolding round stabilize warm_up record_sample
round-index profile target world s = ground arith

-- Rounds come at least an interval apart, which is what `sleep` promises, by the clock's readings.
abbrev pub IsSteady : VerificationProfile → World → Type 0
IsSteady profile world =
    (k : ℕ) → world.window_start + k * profile.evaluation_interval_seconds ≤ world.clock k

late-is_over :
    (profile : VerificationProfile) (world : World) (s : Session)
    → 1 ≤ profile.evaluation_interval_seconds
    → IsSteady profile world
    → profile.max_verification_duration_seconds ≤ s.sample_index
    → is_over profile world s ≡ true
unfolding is_over
late-is_over profile world s i steady late =
    let far : s.sample_index ≤ s.sample_index * profile.evaluation_interval_seconds =
      le-mul_of_pos_right s.sample_index i in
    ground (arith, far, steady s.sample_index, late)

module _ (n : ℕ) (profile : VerificationProfile) (target : Target) (world : World)
    (s : Session) where
  abbrev after : Session
  after = round profile target world s

  abbrev stops : Bool
  stops = breaks profile (sampled profile target world s) after

  pub observe-over :
      is_over profile world s ≡ true → observe (suc n) profile target world s ≡ some s
  unfolding observe
  observe-over over = rw over refl

  pub observe-break :
      is_over profile world s ≡ false
      → stops ≡ true
      → observe (suc n) profile target world s ≡ some after
  unfolding observe
  observe-break running stop = rw (running, stop) refl

  pub observe-next :
      is_over profile world s ≡ false
      → stops ≡ false
      → observe (suc n) profile target world s ≡ observe n profile target world (next_index after)
  unfolding observe
  observe-next running on = rw (running, on) refl

  pub next-index : (next_index after).sample_index ≡ s.sample_index + 1
  unfolding next_index
  next-index = ap (λ k. k + 1) (round-index profile target world s)

observe-total :
    (n : ℕ) (profile : VerificationProfile) (target : Target) (world : World) (s : Session)
    → 1 ≤ profile.evaluation_interval_seconds
    → IsSteady profile world
    → profile.max_verification_duration_seconds ≤ s.sample_index + n
    → (r : Session) × (observe (suc n) profile target world s ≡ some r)
observe-total zero profile target world s i steady enough = (
  s,
  observe-over zero profile target world s
      (late-is_over profile world s i steady (omega (arith, enough))),
)
observe-total (suc n) profile target world s i steady enough =
    elim (Bool-cases (is_over profile world s)) [
      | inl over ↦ (s, observe-over (suc n) profile target world s over)
      | inr running ↦ elim (Bool-cases (stops (suc n) profile target world s)) [
        | inl stop ↦ (_, observe-break (suc n) profile target world s running stop)
        | inr on ↦
            let next = next_index (after (suc n) profile target world s) in
            let index = next-index (suc n) profile target world s in
            let (r, rest) =
              observe-total n profile target world next i steady (omega (arith, enough, index)) in
            (r, observe-next (suc n) profile target world s running on ∙ rest)
      ]
    ]

-- Where the profile's interval is at least a second and the clock is steady, the loop ends: one round
-- for each second of the profile's longest duration, and one more, are enough fuel.
pub run_verification-total :
    (profile : VerificationProfile) (target : Target) (world : World) (fault : Fault)
    (window_end : ℕ)
    → 1 ≤ profile.evaluation_interval_seconds
    → IsSteady profile world
    → (v : VerificationVerdict) × (run_verification
          (suc profile.max_verification_duration_seconds)
          profile
          target
          world
          fault
          window_end
        ≡ some v)
unfolding run_verification conclude
run_verification-total profile target world fault window_end i steady =
    let (s, done) =
      observe-total profile.max_verification_duration_seconds profile target world new_session i
        steady (omega arith) in
    (conclude profile world fault window_end s, rw (done, run_verification) refl)
