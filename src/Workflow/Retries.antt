-- ===== src/Workflow/Retries.antt =====
-- Which nodes are retried and how often (runtime/policy.py), and which incidents
-- (verification/scheduling.py).
use self_healing_agent.Prelude.{
  ℕ_discrete, refl, inr, inl, zero, ◌≢◌, ◌<◌, ◌^◌, ◌⊎◌, suc, [], arith, some_and, ◌≤◌, false, leb,
  true, ltb, ◌≡◌, if◌then◌else◌, ◌-◌, or_default, Bool, List, ◌∷◌, some, ◌+◌, ℕ, Option,
}
use self_healing_agent.Workflow.Graph.{finish, execute, verify, collect_evidence, Node}

pub data NodeClassification : Type 0 where
  safe_read mutating coordination : NodeClassification

-- NODE_CLASSIFICATIONS; `finish` stands for any other name.
unfoldable pub classification_of : Node → NodeClassification
classification_of collect_evidence = safe_read
classification_of verify = safe_read
classification_of execute = mutating
classification_of finish = mutating
classification_of _ = coordination

-- What the k-th call of the node's function does: it returns, or raises an exception.
pub data Outcome {ℓ} (A : Type ℓ) : Type ℓ where
  returns : A → Outcome A
  raises : ℕ → Outcome A

-- The answer, the number of calls that were made, and the delays slept, in multiples of
-- `initial_delay`. A `max_read_retries` of zero ends in `raise None`: `no_attempt`.
pub data Answer {ℓ} (A : Type ℓ) : Type ℓ where
  result : A → Answer A
  exception : ℕ → Answer A
  no_attempt : Answer A

pub record Attempts {ℓ} (A : Type ℓ) : Type ℓ where
  pub answer : Answer A
  pub calls : ℕ
  pub delays : List ℕ

Outcome-cases {ℓ} :
    {A : Type ℓ} (o : Outcome A) → ((a : A) × (o ≡ returns a)) ⊎ ((e : ℕ) × (o ≡ raises e))
Outcome-cases (returns a) = inl (a, refl)
Outcome-cases (raises e) = inr (e, refl)

pub answer_of {ℓ} : {A : Type ℓ} → Outcome A → Answer A
answer_of (returns a) = result a
answer_of (raises e) = exception e

unfoldable pub sleep_before {ℓ} : {A : Type ℓ} → ℕ → Attempts A → Attempts A
sleep_before delay rest = record rest { delays = delay ∷ rest.delays }

module _ {ℓ} {A : Type ℓ} (func : ℕ → Outcome A) where
  -- `for attempt in range(…)`, with `left` calls to come, `attempt` the number of the next; the last
  -- exception is raised again after the last of them.
  unfoldable pub retry : ℕ → ℕ → Answer A → Attempts A
  retry zero attempt last_exc = record { answer = last_exc; calls = attempt - 1; delays = [] }
  retry (suc left) attempt last_exc = elim (func attempt) [
    | returns a ↦ record { answer = result a; calls = attempt; delays = [] }
    | raises e ↦
        let rest = retry left (attempt + 1) (exception e) in
        if ltb 0 left then sleep_before (2 ^ (attempt - 1)) rest else rest
  ]

  -- `execute_with_policy`
  unfoldable pub execute_with_policy : ℕ → Node → Attempts A
  execute_with_policy max_read_retries node = elim (classification_of node) [
    | safe_read ↦ retry max_read_retries 1 no_attempt
    | _ ↦ record { answer = answer_of (func 1); calls = 1; delays = [] }
  ]

pub record AttemptCounters : Type 0 where
  pub attempt_number : ℕ
  pub retries_used : ℕ
  pub retry_limit : ℕ
  pub max_dispatches : ℕ

-- `compute_attempt_counters`, on attempts that are not negative
unfoldable pub compute_attempt_counters : ℕ → ℕ → AttemptCounters
compute_attempt_counters attempts retry_limit = record {
  attempt_number = attempts + 1;
  retries_used = attempts;
  retry_limit = retry_limit;
  max_dispatches = retry_limit + 1;
}

-- `elapsed + cooldown_seconds + 90.0 > max_workflow_duration_seconds`, with the start on the other side
unfoldable pub overruns : ℕ → ℕ → ℕ → ℕ → Bool
overruns started cooldown_seconds max_workflow_duration_seconds now =
    ltb (started + max_workflow_duration_seconds) (now + cooldown_seconds + 90)

-- `is_retry_eligible`
unfoldable pub is_retry_eligible : ℕ → ℕ → Option ℕ → ℕ → ℕ → ℕ → Bool
is_retry_eligible attempts retry_limit workflow_started_at cooldown_seconds max_duration now =
    if leb retry_limit attempts
    then false
    else if some_and workflow_started_at (λ at. overruns at cooldown_seconds max_duration now)
    then false
    else true

-- `calculate_next_eligible_time`, with `now` given
unfoldable pub calculate_next_eligible_time : Option ℕ → ℕ → ℕ → ℕ
calculate_next_eligible_time last_action_at cooldown_seconds now =
    or_default last_action_at now + cooldown_seconds

-- An eligible retry, from an action at or before `now`, is due by a time that still leaves 90 seconds before the workflow's deadline, and is
-- one of the dispatches that the counters allow.
pub retry-in_time :
    (attempts retry_limit started cooldown max_duration now : ℕ) (last_action_at : Option ℕ)
    → is_retry_eligible attempts retry_limit (some started) cooldown max_duration now ≡ true
    → or_default last_action_at now ≤ now
    → (calculate_next_eligible_time last_action_at cooldown now + 90 ≤ started + max_duration)
      × ((compute_attempt_counters (attempts + 1) retry_limit).attempt_number
          ≤ (compute_attempt_counters (attempts + 1) retry_limit).max_dispatches)
unfolding is_retry_eligible overruns calculate_next_eligible_time compute_attempt_counters
retry-in_time attempts retry_limit started cooldown max_duration now last_action_at h past =
    (ground (arith, h, past), ground (arith, h))

module _ {ℓ} {A : Type ℓ} (func : ℕ → Outcome A) where
  retry-calls :
      (left attempt : ℕ) (last : Answer A)
      → 1 ≤ attempt
      → (retry func left attempt last).calls + 1 ≤ attempt + left
  unfolding retry sleep_before
  retry-calls zero attempt last h = omega (arith, h)
  retry-calls (suc left) attempt last h = elim (Outcome-cases (func attempt)) [
    | inl (a, good) ↦ ground (arith, good)
    | inr (e, bad) ↦
        let rest = retry-calls left (attempt + 1) (exception e) (omega (arith, h)) in
        ground (arith, bad, rest)
  ]

  -- Where one of the calls to come returns, so does the loop.
  retry-returns :
      (left attempt k : ℕ) (last : Answer A) (a : A)
      → attempt ≤ k
      → k < attempt + left
      → func k ≡ returns a
      → (b : A) × ((retry func left attempt last).answer ≡ result b)
  unfolding retry sleep_before
  retry-returns zero attempt k last a from upto good = absurd (omega (arith, from, upto))
  retry-returns (suc left) attempt k last a from upto good = elim (Outcome-cases (func attempt)) [
    | inl (b, now) ↦ (b, ground (arith, now))
    | inr (e, bad) ↦ elim (ℕ_discrete attempt k) [
      | yes same ↦ absurd (ground (arith, bad, good, same))
      | no apart ↦
          let (b, rest) =
            retry-returns left (attempt + 1) k (exception e) a (ground (arith, from, apart))
              (omega (arith, upto)) good in
          (b, ground (arith, bad, rest))
    ]
  ]

  -- A node that is no safe read is called once, whatever happens; a safe read is called at most as often
  -- as allowed, and returns where one of the allowed calls returns.
  pub execute_with_policy-calls :
      (max_read_retries : ℕ) (node : Node)
      → (classification_of node ≢ safe_read
          → execute_with_policy func max_read_retries node
            ≡ record { answer = answer_of (func 1); calls = 1; delays = [] })
        × (classification_of node ≡ safe_read
            → ((execute_with_policy func max_read_retries node).calls ≤ max_read_retries)
              × ((k : ℕ) (a : A)
                  → 1 ≤ k
                  → k ≤ max_read_retries
                  → func k ≡ returns a
                  → (b : A) × ((execute_with_policy func max_read_retries node).answer ≡ result b)))
  unfolding execute_with_policy
  execute_with_policy-calls max node = (
    (λ n. ground (arith, n)),
    (λ s.
        let same : execute_with_policy func max node ≡ retry func max 1 no_attempt =
          rw (s, execute_with_policy) refl in
        (
          rw same (omega (arith, retry-calls max 1 no_attempt (omega arith))),
          (λ k a from upto good.
              rw same (retry-returns max 1 k no_attempt a from (omega (arith, upto)) good)),
        )),
  )
