-- ===== src/Planner/Validator/Checks.antt =====
-- Each check of the validator against the condition of Safe that it stands for.
use self_healing_agent.Prelude.{
  leb, ◌<◌, ◌≤◌, length, ◌++◌, inr, str_eq→eq, inl, Option-cases, not, Bool-cases, keep, ◌==◌,
  str_eq, refl, none, subst, arith, some, [], any, ◌||◌, is_empty, ◌↔◌, false, ◌≢◌, String, ℕ, All,
  ◌≡◌, List, Option, Bool,
}
use self_healing_agent.Planner.Schemas.{RemediationStep, TargetBinding}
use self_healing_agent.Planner.Actions.{Registry, get_action}
use self_healing_agent.Planner.Validator.{
  not_stabilized_after, not_inspected_before, action_errors, duplicate_position, ◌∷◌, when,
  expected_errors, steps_errors, mutation_errors, sequence_errors, steps_of,
}
use self_healing_agent.Planner.Validator.Safe.{
  IsBound, Distinct, InOrder, Placed, SameTarget, append_nil_iff, when_nil_iff, not_str_iff,
  step_nil_iff, any-false_iff,
}

pub expected_nil_iff :
    (target : TargetBinding) (expected : Option TargetBinding)
    → (expected_errors target expected ≡ [])
      ↔ ((e : TargetBinding) → expected ≡ some e → SameTarget target e)
unfolding expected_errors when
expected_nil_iff target none = ((λ h e here. absurd (ground (arith, here))), λ h. refl)
expected_nil_iff target (some x) = (
  (λ h e here.
      let same : x ≡ e = ground (arith, here) in
      let alike : SameTarget target x = (
        ground (arith, h),
        (not_str_iff target.container_id x.container_id).0 (ground (arith, h)),
        (not_str_iff target.service_name x.service_name).0 (ground (arith, h)),
        ground (arith, h),
      ) in
      subst (λ y. SameTarget target y) same alike),
  λ h.
      let (r, c, s, g) = h x refl in
      let c' = (not_str_iff target.container_id x.container_id).1 c in
      let s' = (not_str_iff target.service_name x.service_name).1 s in ground (arith, r, c', s', g),
)

-- Every step is bound, and its position is new.
abbrev pub StepsFit : Registry → TargetBinding → List ℕ → List RemediationStep → Type 0
StepsFit registry target seen steps =
    All (IsBound registry target) steps
    × All (λ (s : RemediationStep). All (λ (p : ℕ). s.position ≢ p) seen) steps
    × Distinct steps

module _ {ℓ κ κ'} {A : Type ℓ} (P : A → Type κ) (Q : A → Type κ') where
  All_map : (xs : List A) → ((a : A) → P a → Q a) → All P xs → All Q xs
  All_map [] f all_P = tt
  All_map (x ∷ xs) f (p, ps) = (f x p, All_map xs f ps)

  All_zip : (xs : List A) → All P xs → All Q xs → All (λ (a : A). P a × Q a) xs
  All_zip [] ps qs = tt
  All_zip (x ∷ xs) (p, ps) (q, qs) = ((p, q), All_zip xs ps qs)

pub All_all {ℓ κ} : {A : Type ℓ} (P : A → Type κ) (xs : List A) → ((a : A) → P a) → All P xs
All_all P [] f = tt
All_all P (x ∷ xs) f = (f x, All_all P xs f)

abbrev pub Fresh : List ℕ → RemediationStep → Type 0
Fresh seen s = All (λ (p : ℕ). s.position ≢ p) seen

abbrev Apart : RemediationStep → RemediationStep → Type 0
Apart s t = t.position ≢ s.position

step_iff :
    (registry : Registry) (target : TargetBinding) (s : RemediationStep)
    → (action_errors registry target s ≡ []) ↔ IsBound registry target s
unfolding action_errors
step_iff registry target s = elim (Option-cases (get_action registry s.action)) [
  | inl gone ↦ (
    (λ h. absurd (ground (arith, h, gone))),
    λ b. let there = b.registered in absurd (ground (arith, gone, there)),
  )
  | inr (action, here) ↦
      let this = step_nil_iff registry target s action here in
      (
        (λ h. this.0 (ground (arith, h, here))),
        λ b. let nil = this.1 b in ground (arith, nil, here),
      )
]

pub steps_nil_iff :
    (registry : Registry) (target : TargetBinding) (seen : List ℕ) (steps : List RemediationStep)
    → (steps_errors registry target seen steps ≡ []) ↔ StepsFit registry target seen steps
unfolding steps_errors
steps_nil_iff registry target seen [] = ((λ h. (tt, tt, tt)), λ h. refl)
steps_nil_iff registry target seen (s ∷ steps) =
    let rec = steps_nil_iff registry target (s.position ∷ seen) steps in
    let this = step_iff registry target s in
    let fresh = any-false_iff seen s.position in
    let dup = when (any (λ p. p == s.position) seen) (duplicate_position s.position) in
    let new = when_nil_iff (any (λ p. p == s.position) seen) (duplicate_position s.position) in
    let bad = action_errors registry target s in
    let later = steps_errors registry target (s.position ∷ seen) steps in
    (
      (λ h.
          let (first, none_later) = (append_nil_iff (dup ++ bad) later).0 h in
          let (no_dup, no_bad) = (append_nil_iff dup bad).0 first in
          let (bound, unseen, distinct) = rec.0 none_later in
          (
            (this.0 no_bad, bound),
            (
              fresh.0 (new.0 no_dup),
              All_map (Fresh (s.position ∷ seen)) (Fresh seen) steps (λ t f. f.1) unseen,
            ),
            (All_map (Fresh (s.position ∷ seen)) (Apart s) steps (λ t f. f.0) unseen, distinct),
          )),
      λ ((b, bound), (f, unseen), (apart, distinct)). (append_nil_iff (dup ++ bad) later).1 (
        (append_nil_iff dup bad).1 (new.1 (fresh.1 f), this.1 b),
        rec.1 (bound, All_zip (Apart s) (Fresh seen) steps apart unseen, distinct),
      ),
    )

pub mutation_nil_iff :
    (ms : List RemediationStep)
    → (mutation_errors ms ≡ []) ↔ All (λ (m : RemediationStep). m.action ≡ "restart_container") ms
unfolding mutation_errors when
mutation_nil_iff [] = ((λ h. tt), λ h. refl)
mutation_nil_iff (m ∷ ms) =
    let rec = mutation_nil_iff ms in
    let this = not_str_iff m.action "restart_container" in
    (
      (λ h. (this.0 (ground (arith, h)), rec.0 (ground (arith, h)))),
      λ h. let later = rec.1 h.1 in let here = this.1 h.0 in ground (arith, later, here),
    )

module _ {ℓ} {A : Type ℓ} (p : A → Bool) where
  is_empty-keep : (xs : List A) → is_empty (keep p xs) ≡ not (any p xs)
  is_empty-keep [] = refl
  is_empty-keep (x ∷ xs) = let rec = is_empty-keep xs in ground (arith, rec)

any-keep_iff :
    (P : RemediationStep → Type 0) (bad : RemediationStep → Bool) (action : String)
    (steps : List RemediationStep)
    → ((s : RemediationStep) → (bad s ≡ false) ↔ P s)
    → (any bad (keep (λ s. str_eq s.action action) steps) ≡ false)
      ↔ All (λ (s : RemediationStep). s.action ≡ action → P s) steps
any-keep_iff P bad action [] ok = ((λ h. tt), λ h. refl)
any-keep_iff P bad action (s ∷ steps) ok =
    let rec = any-keep_iff P bad action steps ok in
    elim (Bool-cases (str_eq s.action action)) [
      | inl same ↦ (
        (λ h. ((λ e. (ok s).0 (ground (arith, h, same))), rec.0 (ground (arith, h, same)))),
        λ h.
            let here = (ok s).1 (h.0 (str_eq→eq s.action action same)) in
            let later = rec.1 h.1 in ground (arith, same, here, later),
      )
      | inr apart ↦ (
        (λ h. (
          (λ e.
              absurd (let same = (not_str_iff s.action action).1 e in ground (arith, same, apart))),
          rec.0 (ground (arith, h, apart)),
        )),
        λ h. let later = rec.1 h.1 in ground (arith, apart, later),
      )
    ]

-- The two tests of step 5, of the steps of one action.
Placed-iff :
    (P : RemediationStep → Type 0) (bad : RemediationStep → Bool) (action : String)
    (steps : List RemediationStep)
    → ((s : RemediationStep) → (bad s ≡ false) ↔ P s)
    → ((is_empty (steps_of action steps) || any bad (steps_of action steps)) ≡ false)
      ↔ Placed P action steps
unfolding steps_of
Placed-iff P bad action steps ok =
    let some_step = is_empty-keep (λ (s : RemediationStep). str_eq s.action action) steps in
    let rec = any-keep_iff P bad action steps ok in
    (
      (λ h. (ground (arith, h, some_step), rec.0 (ground (arith, h)))),
      λ h. let here = h.0 in let all_P = rec.1 h.1 in ground (arith, here, all_P, some_step),
    )

pub sequence_nil_iff :
    (steps ms : List RemediationStep)
    → length ms ≤ 1
    → (sequence_errors steps ms ≡ []) ↔ All (InOrder steps) ms
unfolding sequence_errors
sequence_nil_iff steps [] one = ((λ h. tt), λ h. refl)
sequence_nil_iff steps (m ∷ n ∷ ms) one = absurd (omega (arith, one))
sequence_nil_iff steps (m ∷ []) one =
    let before =
      Placed-iff (λ s. s.position < m.position) (λ s. leb m.position s.position) "inspect_container"
        steps (λ s. (λ h. ground (arith, h), λ h. ground (arith, h))) in
    let after =
      Placed-iff (λ s. m.position < s.position) (λ s. leb s.position m.position)
        "wait_for_stabilization" steps (λ s. (λ h. ground (arith, h), λ h. ground (arith, h))) in
    let early =
      when_nil_iff
        (is_empty (steps_of "inspect_container" steps)
          || any (λ s. leb m.position s.position) (steps_of "inspect_container" steps))
        not_inspected_before in
    let late =
      when_nil_iff
        (is_empty (steps_of "wait_for_stabilization" steps)
          || any (λ s. leb s.position m.position) (steps_of "wait_for_stabilization" steps))
        not_stabilized_after in
    (
      (λ h.
          let (e, l) = (append_nil_iff _ _).0 h in
          ((before.0 (early.0 e), after.0 (late.0 l)), tt)),
      λ ((b, a), u). (append_nil_iff _ _).1 (early.1 (before.1 b), late.1 (after.1 a)),
    )
