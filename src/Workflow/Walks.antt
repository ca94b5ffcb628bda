-- ===== src/Workflow/Walks.antt =====
-- What the edges guarantee on every walk of the graph.
use self_healing_agent.Prelude.{◌||◌, ◌↔◌, refl, inr, inl, false, arith, ◌⊎◌, true, ◌≡◌}
use self_healing_agent.Workflow.Graph.{
  wait_for_approval_node, finish, resolve, escalate, verify, wait_for_approval, evaluate_policy,
  plan, diagnose, route_after_verify, reads, route_after_execute, route_after_plan, execute,
  is_true, collect_evidence, route_after_diagnose, route_after_policy, route_after_approval_wait,
  IncidentGraphState, Node, route,
}

-- A run of the compiled graph: `body` is what the nodes do. It starts at `collect_evidence`.
pub data Walk (body : Node → IncidentGraphState → IncidentGraphState) (start : IncidentGraphState)
    : Node → IncidentGraphState → Type 0 where
  begin : Walk body start collect_evidence start
  onward :
      {n : Node} {s : IncidentGraphState}
      → Walk body start n s
      → Walk body start (route n (body n s)) (body n s)

-- What a state must say for the graph to dispatch a mutation.
pub record MayExecute (s : IncidentGraphState) : Type 0 where
  pub consent : is_true s.approval_required ≡ true → is_true s.is_approved ≡ true
  pub cause :
      (is_true s.is_approved ≡ true)
      ⊎ (reads s.policy_decision "ALLOW" ≡ true)
      ⊎ (reads s.status "POLICY_EVALUATED" ≡ true)

policy-execute :
    (s : IncidentGraphState)
    → route_after_policy s ≡ execute
    → MayExecute s
      × (reads s.policy_decision "DENY" ≡ false)
      × (reads s.policy_decision "DEFER" ≡ false)
unfolding route_after_policy
policy-execute s h = (
  record { consent = λ a. ground (arith, h, a); cause = ground (arith, h) },
  ground arith,
  ground arith,
)

approval-execute :
    (s : IncidentGraphState) → route_after_approval_wait s ≡ execute → is_true s.is_approved ≡ true
unfolding route_after_approval_wait
approval-execute s h = ground arith

-- Where an edge leads to `execute`, its source and its state allow it.
route-execute : (n : Node) (s : IncidentGraphState) → route n s ≡ execute → MayExecute s
unfolding route route_after_diagnose route_after_plan route_after_execute route_after_verify
route-execute collect_evidence s h = absurd (ground arith)
route-execute diagnose s h = absurd (ground arith)
route-execute plan s h = absurd (ground arith)
route-execute evaluate_policy s h = (policy-execute s h).0
route-execute wait_for_approval s h =
    let approved = approval-execute s h in record { consent = λ _. approved; cause = inl approved }
route-execute execute s h = absurd (ground arith)
route-execute verify s h = absurd (ground arith)
route-execute escalate s h = absurd (ground arith)
route-execute resolve s h = absurd (ground arith)
route-execute finish s h = absurd (ground arith)

last_step :
    (body : Node → IncidentGraphState → IncidentGraphState) (start : IncidentGraphState)
    (n m : Node) (s : IncidentGraphState)
    → Walk body start n s
    → n ≡ m
    → (collect_evidence ≡ m) ⊎ ((k : Node) × (route k s ≡ m))
last_step body start n m s begin e = inl e
last_step body start n m s (onward {n = k} w) e = inr (k, e)

-- Whatever the nodes do, the graph dispatches a mutation only where the state, where it requires
-- approval, is approved, and where it is approved or the policy allowed the plan or was evaluated.
pub Walk-execute :
    (body : Node → IncidentGraphState → IncidentGraphState) (start s : IncidentGraphState)
    → Walk body start execute s
    → MayExecute s
Walk-execute body start s w = elim (last_step body start execute execute s w refl) [
  | inl h ↦ absurd (ground (arith, h))
  | inr (k, h) ↦ route-execute k s h
]

route-resolve :
    (n : Node) (s : IncidentGraphState)
    → route n s ≡ resolve
    → (is_true s.verification_passed ≡ true) × (reads s.wait_reason "COOLDOWN" ≡ false)
unfolding route route_after_diagnose route_after_plan route_after_policy route_after_approval_wait
    route_after_execute route_after_verify
route-resolve n s h = ground arith

-- Whatever the nodes do, the graph resolves an incident only where its verification passed and no
-- cooldown is awaited.
pub Walk-resolve :
    (body : Node → IncidentGraphState → IncidentGraphState) (start s : IncidentGraphState)
    → Walk body start resolve s
    → (is_true s.verification_passed ≡ true) × (reads s.wait_reason "COOLDOWN" ≡ false)
Walk-resolve body start s w = elim (last_step body start resolve resolve s w refl) [
  | inl h ↦ absurd (ground (arith, h))
  | inr (k, h) ↦ route-resolve k s h
]

abbrev pub after_wait : IncidentGraphState → Node
after_wait s = route_after_approval_wait (wait_for_approval_node s)

-- After the approval node an approved state is executed, even one that is marked denied or expired; any
-- other escalates where it is so marked, and pauses where it is not.
pub approval_outcome :
    (s : IncidentGraphState)
    → ((after_wait s ≡ execute) ↔ (is_true s.is_approved ≡ true))
      × ((after_wait s ≡ escalate) ↔ (
          (is_true s.is_approved ≡ false)
          × ((is_true s.is_denied || is_true s.approval_expired) ≡ true)))
      × ((after_wait s ≡ finish) ↔ (
          (is_true s.is_approved ≡ false)
          × ((is_true s.is_denied || is_true s.approval_expired) ≡ false)))
unfolding route_after_approval_wait wait_for_approval_node
approval_outcome s = (
  (λ h. ground (arith, h), λ h. ground (arith, h)),
  (λ h. ground (arith, h), λ h. ground (arith, h)),
  (λ h. ground (arith, h), λ h. ground (arith, h)),
)
