-- ===== src/Incident/Transition/Contract.antt =====
-- `transition`, with no helper of the code in what is said of it but the diagram and the shape of an approval
-- event.
use self_healing_agent.Prelude.{
  sym, subst, ◌++◌, ◌∷◌, [], refl, ◌≢◌, some, ℕ, ◌≡◌, ◌<◌, ◌+◌, true, false, ◌↔◌, arith, Bool-cases,
  inl, inr,
}
use self_healing_agent.Incident.States.{
  is_approved, IncidentState, can_move, is_retry, planned, escalated, pending_approval, executing,
  verifying, diagnosed, resolved, approved, is_planned, is_escalated, IncidentState-discrete,
  is_resolved,
}
use self_healing_agent.Incident.Store.{find_incident, Db, ok, Incident}
use self_healing_agent.Incident.Transition.{
  transition, apply_changes, changes_for, breaks_approval, required_target, approved_event,
}
use self_healing_agent.Incident.Transition.Laws.{
  IsLegal, moved, transition-effect, transition-ok_iff,
}

-- What a move needs: the version, an edge of the diagram, from PLANNED the way that the approval requirement
-- leaves open, and a retry that is left.
pub record IsPermitted (x : Incident) (v : ℕ) (target : IncidentState) : Type 0 where
  pub current : x.version ≡ v
  pub edge : can_move x.state target ≡ true
  pub required :
      x.state ≡ planned
      → x.approval_required ≡ true
      → target ≢ escalated
      → target ≡ pending_approval
  pub direct :
      x.state ≡ planned → x.approval_required ≡ false → target ≢ escalated → target ≡ executing
  pub budget : x.state ≡ verifying → target ≡ diagnosed → x.attempts < x.retry_limit

required_lem :
    (x : Incident) (target : IncidentState)
    → breaks_approval x target ≡ false
    → x.state ≡ planned
    → x.approval_required ≡ true
    → target ≢ escalated
    → target ≡ pending_approval
unfolding breaks_approval is_planned is_escalated required_target IncidentState-discrete
required_lem x target h p r n = ground (arith, h, p, r, n)

direct_lem :
    (x : Incident) (target : IncidentState)
    → breaks_approval x target ≡ false
    → x.state ≡ planned
    → x.approval_required ≡ false
    → target ≢ escalated
    → target ≡ executing
unfolding breaks_approval is_planned is_escalated required_target IncidentState-discrete
direct_lem x target h p r n = ground (arith, h, p, r, n)

is_retry_iff : (s t : IncidentState) → (is_retry s t ≡ true) ↔ ((s ≡ verifying) × (t ≡ diagnosed))
unfolding is_retry
is_retry_iff s t = (λ h. ground (arith, h), λ (a, b). ground (arith, a, b))

approval_lem :
    (x : Incident) (target : IncidentState)
    → (x.state ≡ planned
        → x.approval_required ≡ true
        → target ≢ escalated
        → target ≡ pending_approval)
    → (x.state ≡ planned → x.approval_required ≡ false → target ≢ escalated → target ≡ executing)
    → breaks_approval x target ≡ false
unfolding breaks_approval is_planned is_escalated required_target IncidentState-discrete
approval_lem x target required direct = elim (Bool-cases (is_planned x.state)) [
  | inr other ↦ ground (arith, other)
  | inl p ↦ elim (Bool-cases (is_escalated target)) [
    | inl leaves ↦ ground (arith, leaves)
    | inr stays ↦
        let at : x.state ≡ planned = ground (arith, p) in
        let n : target ≢ escalated = λ e. ground (arith, e, stays) in
        elim (Bool-cases x.approval_required) [
          | inl r ↦ let e = required at r n in ground (arith, e, r)
          | inr r ↦ let e = direct at r n in ground (arith, e, r)
        ]
  ]
]

IsLegal-IsPermitted :
    (x : Incident) (v : ℕ) (target : IncidentState) → IsLegal x v target ↔ IsPermitted x v target
IsLegal-IsPermitted x v target = (
  (λ l. record {
    current = l.current;
    edge = l.edge;
    required = required_lem x target l.approval;
    direct = direct_lem x target l.approval;
    budget = λ a b. l.budget ((is_retry_iff x.state target).1 (a, b));
  }),
  λ p. record {
    current = p.current;
    edge = p.edge;
    approval = approval_lem x target p.required p.direct;
    budget = λ h. let (a, b) = (is_retry_iff x.state target).0 h in p.budget a b;
  },
)

-- A transition commits exactly where the row exists, is at the version given and has an edge to the target;
-- where from PLANNED, short of ESCALATED, the target is PENDING_APPROVAL if approval is required and EXECUTING
-- if it is not; and where a retry from VERIFYING to DIAGNOSED is left in the limit.
pub transition-commits_iff :
    (db : Db) (i v : ℕ) (target : IncidentState) (now fresh : ℕ)
    → ((r : Db × Incident) × (transition db i v target now fresh ≡ ok r))
      ↔ ((x : Incident) × (find_incident i db.incidents ≡ some x) × IsPermitted x v target)
transition-commits_iff db i v target now fresh =
    let both = transition-ok_iff db i v target now fresh in
    (
      (λ h. let (x, here, legal) = both.0 h in (x, here, (IsLegal-IsPermitted x v target).0 legal)),
      λ (x, here, p). both.1 (x, here, (IsLegal-IsPermitted x v target).1 p),
    )

-- A row that a move has written over `old`.
pub record IsWritten (old y : Incident) (v : ℕ) (target : IncidentState) (now : ℕ) : Type 0 where
  pub state : y.state ≡ target
  pub version : y.version ≡ v + 1
  pub updated_at : y.updated_at ≡ now
  pub retried : old.state ≡ verifying → target ≡ diagnosed → y.attempts ≡ old.attempts + 1
  pub other_move : ((old.state ≡ verifying) × (target ≡ diagnosed) → ⊥) → y.attempts ≡ old.attempts
  pub closed : target ≡ resolved → y.resolved_at ≡ some now
  pub still_open : target ≢ resolved → y.resolved_at ≡ old.resolved_at
  pub id : y.id ≡ old.id
  pub resource_id : y.resource_id ≡ old.resource_id
  pub correlation_key : y.correlation_key ≡ old.correlation_key
  pub severity : y.severity ≡ old.severity
  pub retry_limit : y.retry_limit ≡ old.retry_limit
  pub approval_required : y.approval_required ≡ old.approval_required

resolved_lem : (s : IncidentState) → is_resolved s ≡ true → s ≡ resolved
unfolding is_resolved
resolved_lem s h = ground (arith, h)

pub moved-IsWritten :
    (old : Incident) (v : ℕ) (target : IncidentState) (now : ℕ)
    → IsWritten old (moved old v target now) v target now
unfolding moved apply_changes changes_for is_resolved
moved-IsWritten old v target now = record {
  state = refl;
  version = refl;
  updated_at = refl;
  retried = λ a b. let e = (is_retry_iff old.state target).1 (a, b) in ground (arith, e);
  other_move = λ n. elim (Bool-cases (is_retry old.state target)) [
    | inl again ↦ absurd (n ((is_retry_iff old.state target).0 again))
    | inr once ↦ ground (arith, once)
  ];
  closed = λ e. ground (arith, e);
  still_open = λ n. elim (Bool-cases (is_resolved target)) [
    | inl e ↦ absurd (n (resolved_lem target e))
    | inr e ↦ ground (arith, e)
  ];
  id = refl;
  resource_id = refl;
  correlation_key = refl;
  severity = refl;
  retry_limit = refl;
  approval_required = refl;
}

-- What a transition leaves behind.
pub record IsEffect (db db' : Db) (i v : ℕ) (target : IncidentState) (now fresh : ℕ) (y : Incident)
    : Type 0 where
  pub old : Incident
  pub was : find_incident i db.incidents ≡ some old
  pub permitted : IsPermitted old v target
  pub row : IsWritten old y v target now
  pub stored : find_incident i db'.incidents ≡ some y
  pub others : (j : ℕ) → j ≢ i → find_incident j db'.incidents ≡ find_incident j db.incidents
  pub told : target ≡ approved → db'.outbox ≡ db.outbox ++ approved_event fresh i v y ∷ []
  pub untold : target ≢ approved → db'.outbox ≡ db.outbox

approved_lem : (s : IncidentState) → is_approved s ≡ true → s ≡ approved
unfolding is_approved
approved_lem s h = ground (arith, h)

-- Where a transition that reads and writes one store commits, the row was permitted the move. It is stored with
-- the target as its state, the next version and the time; with one attempt more after a retry and the same
-- otherwise; with the time of its resolution where the target is RESOLVED and the old one otherwise; all else of
-- it, and every other row, is as before. The outbox gains one approval event where the target is APPROVED and
-- nothing otherwise.
pub transition-writes :
    (db : Db) (i v : ℕ) (target : IncidentState) (now fresh : ℕ) (db' : Db) (y : Incident)
    → transition db i v target now fresh ≡ ok (db', y)
    → IsEffect db db' i v target now fresh y
unfolding is_approved
transition-writes db i v target now fresh db' y h =
    let e = transition-effect db i v target now fresh db' y h in
    record {
      old = e.old;
      was = e.was;
      permitted = (IsLegal-IsPermitted e.old v target).0 e.legal;
      row =
          subst (λ (z : Incident). IsWritten e.old z v target now) (sym e.row)
            (moved-IsWritten e.old v target now);
      stored = e.stored;
      others = e.others;
      told = λ a. ground (arith, a, e.told);
      untold = λ n. elim (Bool-cases (is_approved target)) [
        | inl a ↦ absurd (n (approved_lem target a))
        | inr a ↦ ground (arith, a, e.told)
      ];
    }
