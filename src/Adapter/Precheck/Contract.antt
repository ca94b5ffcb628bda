-- ===== src/Adapter/Precheck/Contract.antt =====
-- What a precheck that passes has seen, with no check in it.
use self_healing_agent.Approvals.Store.{Approval}
use self_healing_agent.Text.{codes, lower_code, codes_eq}
use self_healing_agent.Lock.Service.{ResourceLock, is_disabled, check_safety, Locks}
use self_healing_agent.Adapter.Intent.{ExecutionIntent}
use self_healing_agent.Prelude.{
  is_some, Bool-cases, str_eq_refl, ap, ◌∙◌, str_eq→eq, eq→str_eq, inr, inl, ◌||◌, neq→str_eq,
  str_eq, str_eq→neq, Option-cases, is_empty, false, true, ◌<◌, ◌==◌, ◌⊎◌, any, or_default, ◌≢◌,
  map, ℕ, arith, Option, String, refl, none, ◌≡◌, some, ◌↔◌,
}
use self_healing_agent.Adapter.Precheck.{
  ◌orelse◌, granted_approval, get_automation_controls, found, check_rows,
  get_latest_policy_decision, label, bound_container, PolicyDecision, Resource, lock_control,
  check_grant, check_binding, check_labels, check_control, ControlRow, check_decision, Facts,
}

-- The container is managed, of the service, and of no other project.
pub record IsOurs (labels : String → Option String) : Type 0 where
  pub managed :
      codes_eq (map lower_code (label labels "self-healing.managed")) (codes "true") ≡ true
  pub service : codes_eq (label labels "com.docker.compose.service") (codes "demo-api") ≡ true
  pub project :
      (is_empty (label labels "com.docker.compose.project") ≡ true)
      ⊎ (codes_eq (label labels "com.docker.compose.project") (codes "self-healing-agent") ≡ true)

pub check_labels_iff :
    (labels : String → Option String) → (check_labels labels ≡ none) ↔ IsOurs labels
unfolding check_labels
check_labels_iff labels = (λ h. ground arith, λ h. ground (arith, h.managed, h.service, h.project))

-- The resource is local and bound to the container of the intent, at its generation.
pub record IsBound (intent : ExecutionIntent) (r : Resource) : Type 0 where
  pub local : r.environment ≡ "local"
  pub container : bound_container r ≡ some intent.container_id
  pub generation : or_default r.binding_generation 1 ≡ intent.binding_generation

pub check_binding_iff :
    (intent : ExecutionIntent) (r : Resource) → (check_binding intent r ≡ none) ↔ IsBound intent r
unfolding check_binding
check_binding_iff intent r = (
  (λ h. elim (Option-cases (bound_container r)) [
    | inl gone ↦ absurd (ground (arith, h, gone))
    | inr (id, here) ↦
        let same = str_eq→eq id intent.container_id (ground (arith, h, here)) in
        record {
          local = str_eq→eq r.environment "local" (ground (arith, h));
          container = here ∙ ap some same;
          generation = ground (arith, h, here);
        }
  ]),
  λ b.
      let local = eq→str_eq r.environment "local" b.local in
      let its = str_eq_refl intent.container_id in
      ground (arith, local, its, b.container, b.generation),
)

-- The decision lets the plan run, with a grant that is good after `now` where one is needed.
pub record IsDecided (d : Option PolicyDecision) (c : ControlRow) (grant : Option Approval)
    (now : ℕ) : Type 0 where
  pub decision : PolicyDecision
  pub latest : d ≡ some decision
  pub not_denied : decision.decision ≢ "DENY"
  pub not_deferred : decision.decision ≢ "DEFER"
  pub approved :
      (decision.decision ≡ "REQUIRE_APPROVAL") ⊎ (c.mode ≡ "APPROVAL_REQUIRED")
      → (a : Approval) × (grant ≡ some a) × (now < a.expires_at)

pub check_decision_iff :
    (d : Option PolicyDecision) (c : ControlRow) (grant : Option Approval) (now : ℕ)
    → (check_decision d c grant now ≡ none) ↔ IsDecided d c grant now
unfolding check_decision check_grant
check_decision_iff none c grant now =
    (λ h. absurd (ground arith), λ b. absurd (ground (arith, b.latest)))
check_decision_iff (some d) c grant now = (
  (λ h. record {
    decision = d;
    latest = refl;
    not_denied = str_eq→neq d.decision "DENY" (ground (arith, h));
    not_deferred = str_eq→neq d.decision "DEFER" (ground (arith, h));
    approved = λ needed.
        let asked : (str_eq d.decision "REQUIRE_APPROVAL" || str_eq c.mode "APPROVAL_REQUIRED")
            ≡ true =
          elim needed [
            | inl e ↦ let t = eq→str_eq d.decision "REQUIRE_APPROVAL" e in ground (arith, t)
            | inr e ↦ let t = eq→str_eq c.mode "APPROVAL_REQUIRED" e in ground (arith, t)
          ] in
        elim (Option-cases grant) [
          | inl gone ↦ absurd (ground (arith, h, asked, gone))
          | inr (a, here) ↦ (a, here, ground (arith, h, asked, here))
        ];
  }),
  λ b.
      let same : b.decision ≡ d = ground (arith, b.latest) in
      let text = ap (λ (z : PolicyDecision). z.decision) same in
      let denied = neq→str_eq d.decision "DENY" (λ e. b.not_denied (text ∙ e)) in
      let deferred = neq→str_eq d.decision "DEFER" (λ e. b.not_deferred (text ∙ e)) in
      elim (Bool-cases (str_eq d.decision "REQUIRE_APPROVAL")) [
        | inl asked ↦
            let (a, here, good) =
              b.approved (inl (text ∙ str_eq→eq d.decision "REQUIRE_APPROVAL" asked)) in
            ground (arith, denied, deferred, asked, here, good)
        | inr free ↦ elim (Bool-cases (str_eq c.mode "APPROVAL_REQUIRED")) [
          | inl asked ↦
              let (a, here, good) = b.approved (inr (str_eq→eq c.mode "APPROVAL_REQUIRED" asked)) in
              ground (arith, denied, deferred, free, asked, here, good)
          | inr none_asked ↦ ground (arith, denied, deferred, free, none_asked)
        ]
      ],
)

-- Automation is on, and the resource neither stopped nor quarantined.
pub record IsAllowed (c : ControlRow) (locks : Locks) (i : ℕ) : Type 0 where
  pub enabled : c.mode ≢ "DISABLED"
  pub running : any (λ r. r == i) c.emergency_stopped_resources ≡ false
  pub unmarked : (lock : ResourceLock) → locks i ≡ some lock → lock.quarantined ≡ false

pub check_control_iff :
    (c : ControlRow) (locks : Locks) (i : ℕ)
    → (check_control c locks i ≡ none) ↔ IsAllowed c locks i
unfolding check_control lock_control check_safety is_disabled
check_control_iff c locks i = (
  (λ h. record {
    enabled = str_eq→neq c.mode "DISABLED" (ground (arith, h));
    running = ground (arith, h);
    unmarked = λ lock here. ground (arith, h, here);
  }),
  λ a.
      let on = neq→str_eq c.mode "DISABLED" a.enabled in
      elim (Option-cases (locks i)) [
        | inl gone ↦ ground (arith, on, a.running, gone)
        | inr (lock, here) ↦ ground (arith, on, a.running, here, a.unmarked lock here)
      ],
)

pub record IsCleared (intent : ExecutionIntent) (facts : Facts) : Type 0 where
  pub service : intent.service_name ≡ "demo-api"
  pub labels : String → Option String
  pub inspected : facts.inspection ≡ found labels
  pub ours : IsOurs labels
  pub resource : Resource
  pub stored : facts.resource ≡ some resource
  pub bound : IsBound intent resource
  pub decided :
      IsDecided
        (get_latest_policy_decision intent.incident_id intent.plan_id facts.decisions)
        (get_automation_controls facts.control)
        (granted_approval intent facts.approvals)
        facts.now
  pub allowed : IsAllowed (get_automation_controls facts.control) facts.locks intent.resource_id
  pub visible : is_some facts.snapshot ≡ true

record IsPassed (intent : ExecutionIntent) (facts : Facts) (r : Resource) : Type 0 where
  binding : check_binding intent r ≡ none
  decision :
      check_decision
        (get_latest_policy_decision intent.incident_id intent.plan_id facts.decisions)
        (get_automation_controls facts.control)
        (granted_approval intent facts.approvals)
        facts.now
      ≡ none
  control :
      check_control (get_automation_controls facts.control) facts.locks intent.resource_id ≡ none

-- What the control flow of a precheck that passes has been through.
record IsThrough (intent : ExecutionIntent) (facts : Facts) : Type 0 where
  service : str_eq intent.service_name "demo-api" ≡ true
  labels : String → Option String
  inspected : facts.inspection ≡ found labels
  checks : (check_labels labels orelse check_rows intent facts) ≡ none
  visible : is_some facts.snapshot ≡ true
