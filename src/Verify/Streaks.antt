-- ===== src/Verify/Streaks.antt =====
-- What the loop of the verifier has seen when it counts consecutive healthy evaluations.
use self_healing_agent.Verify.Verdict.{VerificationVerdict, run_verification, conclude, Fault}
use native.Mathlib.Nat.{add-mul, one-mul}
use self_healing_agent.Verify.Session.{
  breaks, is_over, new_session, next_index, observe, record_sample, stabilize, sampled, round,
  warm_up, World, Session,
}
use self_healing_agent.Verify.Sample.{EvaluationSample, Target, VerificationProfile}
use self_healing_agent.Prelude.{
  zero, suc, refl, Option-cases, some, true≢false, ap, ◌∙◌, ◌+◌, subst, ℕ, inl, sym, [], inr, arith,
  false, Bool-cases, ◌*◌, length, ◌∷◌, true, ◌≡◌, ◌++◌, All, List, append-nil, append_assoc,
  length-append,
}

-- The samples end in a streak of passing ones, as long as the session's count; the healthy seconds are
-- one interval for each, and nothing counts before the prerequisite is met.
pub record IsSound (profile : VerificationProfile) (s : Session) : Type 0 where
  pub earlier : List EvaluationSample
  pub streak : List EvaluationSample
  pub split : s.samples ≡ earlier ++ streak
  pub healthy : All (λ (x : EvaluationSample). x.all_passed ≡ true) streak
  pub count : length streak ≡ s.consecutive_healthy_evaluations
  pub time :
      s.elapsed_healthy_seconds
      ≡ s.consecutive_healthy_evaluations * profile.evaluation_interval_seconds
  pub ready : s.prerequisite_satisfied ≡ false → s.consecutive_healthy_evaluations ≡ 0

All-snoc {ℓ κ} :
    {A : Type ℓ} (P : A → Type κ) (xs : List A) (a : A) → All P xs → P a → All P (xs ++ a ∷ [])
All-snoc P [] a h p = (p, tt)
All-snoc P (x ∷ xs) a h p = (h.0, All-snoc P xs a h.1 p)

pub empty-IsSound :
    (profile : VerificationProfile) (s : Session)
    → s.elapsed_healthy_seconds ≡ 0
    → s.consecutive_healthy_evaluations ≡ 0
    → IsSound profile s
empty-IsSound profile s e c = record {
  earlier = s.samples;
  streak = [];
  split = sym (append-nil s.samples);
  healthy = tt;
  count = sym c;
  time = rw (e, c) (omega arith);
  ready = λ h. c;
}

module _ (profile : VerificationProfile) (sample : EvaluationSample) (w : Session) where
  abbrev stabilized : Session
  stabilized = stabilize profile sample w

  stabilize_off : w.prerequisite_satisfied ≡ false → stabilized ≡ w
  unfolding stabilize
  stabilize_off off = ground (arith, off)

  stabilize_grows :
      w.prerequisite_satisfied ≡ true
      → sample.all_passed ≡ true
      → (stabilized.elapsed_healthy_seconds
          ≡ w.elapsed_healthy_seconds + profile.evaluation_interval_seconds)
        × (stabilized.consecutive_healthy_evaluations ≡ w.consecutive_healthy_evaluations + 1)
        × (stabilized.samples ≡ w.samples)
        × (stabilized.prerequisite_satisfied ≡ true)
  unfolding stabilize
  stabilize_grows on good = ground (arith, on, good)

  stabilize_resets :
      w.prerequisite_satisfied ≡ true
      → sample.all_passed ≡ false
      → (stabilized.elapsed_healthy_seconds ≡ 0) × (stabilized.consecutive_healthy_evaluations ≡ 0)
  unfolding stabilize
  stabilize_resets on bad = ground (arith, on, bad)

grown-time :
    (n n' m e e' f i : ℕ) → n' ≡ n + 1 → n ≡ m → e' ≡ e + i → e ≡ f → f ≡ m * i → e' ≡ n' * i
grown-time n n' m e e' f i a b c d t =
    let p : n' * i ≡ m * i + i =
      ap (λ k. k * i) (a ∙ ap (λ k. k + 1) b) ∙ (add-mul m 1 i ∙ ap (λ k. m * i + k) (one-mul i)) in
    omega (arith, p, c, d, t)

module _ (profile : VerificationProfile) (target : Target) (world : World) (s : Session)
    (h : IsSound profile s) where
  abbrev sample : EvaluationSample
  sample = sampled profile target world s

  abbrev warmed : Session
  warmed = warm_up profile world (record_sample sample s)

  warmed-samples : warmed.samples ≡ s.samples ++ sample ∷ []
  unfolding warm_up record_sample
  warmed-samples = ground arith

  -- The counts stand where the prerequisite is met after the warm-up, and are zero where it is not.
  warmed-on :
      warmed.prerequisite_satisfied ≡ true
      → (warmed.elapsed_healthy_seconds ≡ s.elapsed_healthy_seconds)
        × (warmed.consecutive_healthy_evaluations ≡ s.consecutive_healthy_evaluations)
  unfolding warm_up record_sample
  warmed-on on = ground arith

  warmed-off :
      warmed.prerequisite_satisfied ≡ false
      → (warmed.elapsed_healthy_seconds ≡ 0) × (warmed.consecutive_healthy_evaluations ≡ 0)
  unfolding warm_up record_sample
  warmed-off off = ground arith

  pub round-IsSound : IsSound profile (round profile target world s)
  unfolding round
  round-IsSound = elim (Bool-cases warmed.prerequisite_satisfied) [
    | inr off ↦
        let (e, c) = warmed-off off in
        subst (IsSound profile) (sym (stabilize_off profile sample warmed off))
          (empty-IsSound profile warmed e c)
    | inl on ↦ elim (Bool-cases sample.all_passed) [
      | inl good ↦
          let (e, c) = warmed-on on in
          let (e', c', samples', on') = stabilize_grows profile sample warmed on good in
          record {
            earlier = h.earlier;
            streak = h.streak ++ sample ∷ [];
            split =
                samples'
                ∙ (warmed-samples
                    ∙ (ap (λ xs. xs ++ sample ∷ []) h.split
                        ∙ append_assoc h.earlier h.streak (sample ∷ [])));
            healthy =
                All-snoc (λ (x : EvaluationSample). x.all_passed ≡ true) h.streak sample h.healthy
                  good;
            count =
                length-append h.streak (sample ∷ []) ∙ (ap (λ n. n + 1) (h.count ∙ sym c) ∙ sym c');
            time = grown-time _ _ _ _ _ _ _ c' c e' e h.time;
            ready = λ off. absurd (true≢false (sym on' ∙ off));
          }
      | inr bad ↦
          let (e, c) = stabilize_resets profile sample warmed on bad in
          empty-IsSound profile (stabilize profile sample warmed) e c
    ]
  ]

pub next-IsSound :
    (profile : VerificationProfile) (s : Session)
    → IsSound profile s
    → IsSound profile (next_index s)
unfolding next_index
next-IsSound profile s h = record {
  earlier = h.earlier;
  streak = h.streak;
  split = h.split;
  healthy = h.healthy;
  count = h.count;
  time = h.time;
  ready = h.ready;
}

observe-IsSound :
    (n : ℕ) (profile : VerificationProfile) (target : Target) (world : World) (s r : Session)
    → IsSound profile s
    → observe n profile target world s ≡ some r
    → IsSound profile r
unfolding observe
observe-IsSound zero profile target world s r h e = absurd (ground arith)
observe-IsSound (suc n) profile target world s r h e =
    let after = round profile target world s in
    let sound = round-IsSound profile target world s h in
    elim (Bool-cases (is_over profile world s)) [
      | inl over ↦ let same : s ≡ r = ground (arith, over) in subst (IsSound profile) same h
      | inr running ↦ elim (Bool-cases (breaks profile (sampled profile target world s) after)) [
        | inl stop ↦
            let same : after ≡ r = ground (arith, running, stop) in
            subst (IsSound profile) same sound
        | inr on ↦
            observe-IsSound n profile target world (next_index after) r
              (next-IsSound profile after sound) (ground (arith, running, on))
      ]
    ]

-- A verdict, taken apart.
pub run-conclude :
    (fuel : ℕ) (profile : VerificationProfile) (target : Target) (world : World) (fault : Fault)
    (window_end : ℕ) (v : VerificationVerdict)
    → run_verification fuel profile target world fault window_end ≡ some v
    → (s : Session) × (conclude profile world fault window_end s ≡ v) × IsSound profile s
unfolding run_verification
run-conclude fuel profile target world fault window_end v e =
    elim (Option-cases (observe fuel profile target world new_session)) [
      | inl out ↦ absurd (ground arith)
      | inr (s, done) ↦ (
        s,
        ground arith,
        observe-IsSound fuel profile target world new_session s
            (empty-IsSound profile new_session refl refl) done,
      )
    ]
