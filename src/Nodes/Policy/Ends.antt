-- ===== src/Nodes/Policy/Ends.antt =====
-- What persisting a decision leaves of a PLANNED incident.
use self_healing_agent.Adapter.Precheck.{PolicyDecision}
use self_healing_agent.Nodes.Execute.{is_ready}
use self_healing_agent.Approvals.Submit.{create_escalation_record}
use self_healing_agent.Incident.Transition.Laws.{moved, IsLegal}
use self_healing_agent.Policy.Schemas.{defer, deny, require_approval, allow}
use self_healing_agent.Incident.States.{
  escalated, pending_approval, is_retry, can_move, IncidentState-discrete, is_escalated, planned,
  IncidentState, is_planned,
}
use self_healing_agent.Incident.Transition.{
  may_require, require_changes, require_incident_approval, required_target, breaks_approval,
}
use self_healing_agent.Prelude.{
  [], ◌∷◌, ◌++◌, String, length-append, inr, inl, length, arith, if◌then◌else◌, Bool-cases, ℕ, some,
  ◌≡◌, refl, true, ◌+◌,
}
use self_healing_agent.Nodes.Policy.{
  outcome_value, with_control, ask_approval, from_result, deny_plan, attribute_error, raised,
  persisted, record_policy_decision, ensure_required, persist_decision, PolicyInput, PolicyTables,
}
use self_healing_agent.Nodes.Store.{Tables, transition-moves, move_where-moves}
use self_healing_agent.Nodes.Execute.Settled.{ready-IsLegal, moved-fields}
use self_healing_agent.Incident.Store.{find-update, find_incident, ok, Incident, Db, update-some}

-- The incident after a decision that asks for approval or denies.
pub record IsDecidedAt (db : Db) (i : ℕ) (s : IncidentState) (v : ℕ) : Type 0 where
  pub row : Incident
  pub here : find_incident i db.incidents ≡ some row
  pub state : row.state ≡ s
  pub version : row.version ≡ v

planned-IsLegal :
    (x : Incident)
    → x.state ≡ planned
    → x.approval_required ≡ true
    → IsLegal x x.version pending_approval
unfolding breaks_approval required_target is_planned is_escalated IncidentState-discrete can_move
    is_retry
planned-IsLegal x p required = record {
  current = refl;
  edge = ground (arith, p);
  approval = ground (arith, p, required);
  budget = λ h. absurd (ground (arith, h, p));
}

-- The requirement is set where it was not, in one more version.
record IsAsked (input : PolicyInput) (db : Db) (x : Incident) : Type 0 where
  after : Db
  inc : Incident
  run : ensure_required input db x ≡ ok (after, inc)
  here : find_incident input.incident_id after.incidents ≡ some inc
  state : inc.state ≡ planned
  required : inc.approval_required ≡ true
  version : inc.version ≡ x.version + (if x.approval_required then 0 else 1)

ensure_required-asks :
    (input : PolicyInput) (db : Db) (x : Incident)
    → find_incident input.incident_id db.incidents ≡ some x
    → x.state ≡ planned
    → IsAsked input db x
unfolding ensure_required require_incident_approval require_changes is_planned
ensure_required-asks input db x here p = elim (Bool-cases x.approval_required) [
  | inl already ↦ record {
    after = db;
    inc = x;
    run = ground (arith, already);
    here = here;
    state = p;
    required = already;
    version = ground (arith, already);
  }
  | inr open_yet ↦
      let i = input.incident_id in
      let test = may_require x.version in
      let set = require_changes x.version in
      let (rows, run) = update-some i test set db.incidents x here (ground (arith, p, open_yet)) in
      record {
        after = record db { incidents = rows };
        inc = set x;
        run = ground (arith, open_yet, run);
        here = find-update i test set (λ y. refl) db.incidents rows (set x) run;
        state = p;
        required = refl;
        version = ground (arith, open_yet);
      }
]

ask_approval-asks :
    (input : PolicyInput) (db : Db) (x : Incident)
    → find_incident input.incident_id db.incidents ≡ some x
    → x.state ≡ planned
    → (db' : Db) × (ask_approval input db ≡ ok db')
      × IsDecidedAt db' input.incident_id pending_approval
          (x.version + (if x.approval_required then 1 else 2))
unfolding ask_approval is_planned
ask_approval-asks input db x here p =
    let a = ensure_required-asks input db x here p in
    let m =
      transition-moves input.incident_id pending_approval input.now (input.fresh 0) a.after a.inc
        a.here (planned-IsLegal a.inc a.state a.required) in
    let (state, version) = moved-fields a.inc a.inc.version pending_approval input.now in
    (
      m.after,
      ground (arith, here, p, a.run, m.run),
      record {
        row = moved a.inc a.inc.version pending_approval input.now;
        here = m.stored;
        state = state;
        version = ground (arith, version, a.version);
      },
    )

deny_plan-denies :
    (input : PolicyInput) (t : Tables) (x : Incident)
    → find_incident input.incident_id t.control.incidents ≡ some x
    → x.state ≡ planned
    → (t' : Tables) × (deny_plan input t ≡ ok t')
      × IsDecidedAt t'.control input.incident_id escalated (x.version + 1)
      × (length t'.escalations ≡ length t.escalations + 1)
unfolding deny_plan create_escalation_record is_planned is_ready
deny_plan-denies input t x here p =
    let m =
      transition-moves input.incident_id escalated input.now (input.fresh 0) t.control x here
        (ready-IsLegal x (ground (arith, p))) in
    let run =
      move_where-moves is_planned input.incident_id escalated input.now (input.fresh 0) t.control x
        here (ground (arith, p)) m in
    let (state, version) = moved-fields x x.version escalated input.now in
    (
      record t {
        control = m.after;
        escalations =
            create_escalation_record (input.fresh 1) input.incident_id input.root_cause
              t.escalations;
      },
      ground (arith, run),
      record {
        row = moved x x.version escalated input.now;
        here = m.stored;
        state = state;
        version = version;
      },
      length-append t.escalations _,
    )

-- The row of a decision that reads `word`.
abbrev pub decision_row : PolicyInput → String → PolicyDecision
decision_row input word = record {
  incident_id = input.incident_id;
  plan_id = input.plan_id;
  decision = word;
  created_at = input.now;
}

-- For an incident that is PLANNED: a decision that allows leaves it; one that asks for approval leaves it
-- PENDING_APPROVAL; one that denies leaves it ESCALATED, with one record; each of the three appends one row that
-- reads ALLOW, REQUIRE_APPROVAL or DENY. A deferral to a time raises, and is not stored.
pub persist_decision-ends :
    (input : PolicyInput) (t : PolicyTables) (x : Incident)
    → find_incident input.incident_id ((t.tables).control).incidents ≡ some x
    → x.state ≡ planned
    → (input.outcome ≡ allow
        → persist_decision input t
          ≡ persisted (record t { decisions = t.decisions ++ decision_row input "ALLOW" ∷ [] }))
      × (input.outcome ≡ require_approval
          → (db : Db) × (persist_decision input t
              ≡ persisted (record t {
                tables = record (t.tables) { control = db };
                decisions = t.decisions ++ decision_row input "REQUIRE_APPROVAL" ∷ [];
              }))
            × IsDecidedAt db input.incident_id pending_approval
                (x.version + (if x.approval_required then 1 else 2)))
      × (input.outcome ≡ deny
          → (tables : Tables) × (persist_decision input t
              ≡ persisted (record t {
                tables = tables;
                decisions = t.decisions ++ decision_row input "DENY" ∷ [];
              }))
            × IsDecidedAt tables.control input.incident_id escalated (x.version + 1)
            × (length tables.escalations ≡ length (t.tables).escalations + 1))
      × (input.outcome ≡ defer
          → input.has_defer_until ≡ true
          → persist_decision input t ≡ raised attribute_error)
unfolding persist_decision from_result with_control record_policy_decision outcome_value
persist_decision-ends input t x here p = (
  (λ o. ground (arith, o)),
  (λ o.
      let (db, run, end) = ask_approval-asks input (t.tables).control x here p in
      (db, ground (arith, o, run), end)),
  (λ o.
      let (tables, run, end, longer) = deny_plan-denies input t.tables x here p in
      (tables, ground (arith, o, run), end, longer)),
  λ o u. ground (arith, o, u),
)
