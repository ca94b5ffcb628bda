-- ===== src/Nodes/Store.antt =====
-- The tables that the nodes write, and the guarded move that they share.
use self_healing_agent.Incident.Transition.Laws.{
  transition-effect, transition-ok_iff, IsLegal, moved,
}
use self_healing_agent.Incident.States.{Severity, IncidentState}
use self_healing_agent.Prelude.{
  subst, ap, ◌∙◌, arith, if◌then◌else◌, ◌++◌, true, false, String, Option, Bool, List, ℕ, none,
  some, ◌≡◌, [], ◌∷◌,
}
use self_healing_agent.Incident.Store.{Db, find_incident, Incident, ok, Result, ◌>>=◌}
use self_healing_agent.Incident.Transition.{transition}
use self_healing_agent.Approvals.Submit.{EscalationRecord}

-- `message`, `acknowledged` and `actor` are left out.
pub record AttentionItem : Type 0 where
  pub id : ℕ
  pub incident_id : ℕ
  pub severity : Severity
  pub reason : String

pub record Tables : Type 0 where
  pub control : Db
  pub escalations : List EscalationRecord
  pub attention : List AttentionItem

unfoldable pub create_attention_item :
    ℕ → ℕ → Severity → String → List AttentionItem → List AttentionItem
create_attention_item fresh incident_id severity reason rows =
    rows
    ++ record { id = fresh; incident_id = incident_id; severity = severity; reason = reason } ∷ []

-- `inc = await session.get(…)`, `if inc and inc.state …: inc = await repo.transition(…)`, and `inc` after it.
unfoldable pub move_where :
    (IncidentState → Bool) → ℕ → IncidentState → ℕ → ℕ → Db → Result (Db × Option Incident)
move_where guard incident_id target now fresh db = elim (find_incident incident_id db.incidents) [
  | none ↦ ok (db, none)
  | some inc ↦
      if guard inc.state
      then (do
        done ← transition db incident_id inc.version target now fresh
        ok (done.0, some done.1))
      else ok (db, some inc)
]

-- A legal move, made.
pub record IsMovedTo (db : Db) (i : ℕ) (x : Incident) (target : IncidentState) (now fresh : ℕ)
    : Type 0 where
  pub after : Db
  pub run : transition db i x.version target now fresh ≡ ok (after, moved x x.version target now)
  pub stored : find_incident i after.incidents ≡ some (moved x x.version target now)

pub transition-moves :
    (i : ℕ) (target : IncidentState) (now fresh : ℕ) (db : Db) (x : Incident)
    → find_incident i db.incidents ≡ some x
    → IsLegal x x.version target
    → IsMovedTo db i x target now fresh
transition-moves i target now fresh db x here legal =
    let ((after, y), run) =
      (transition-ok_iff db i x.version target now fresh).1 (x, here, legal) in
    let e = transition-effect db i x.version target now fresh after y run in
    let same : e.old ≡ x = ground (arith, e.was, here) in
    let row : y ≡ moved x x.version target now =
      e.row ∙ ap (λ z. moved z x.version target now) same in
    record {
      after = after;
      run = subst (λ z. transition db i x.version target now fresh ≡ ok (after, z)) row run;
      stored = e.stored ∙ ap some row;
    }

-- A guarded move that meets its state moves the incident, and any other leaves it.
pub move_where-moves :
    (guard : IncidentState → Bool) (i : ℕ) (target : IncidentState) (now fresh : ℕ) (db : Db)
    (x : Incident)
    → find_incident i db.incidents ≡ some x
    → guard x.state ≡ true
    → (m : IsMovedTo db i x target now fresh)
    → move_where guard i target now fresh db ≡ ok (m.after, some (moved x x.version target now))
unfolding move_where
move_where-moves guard i target now fresh db x here meets m = ground (arith, here, meets, m.run)

pub move_where-stays :
    (guard : IncidentState → Bool) (i : ℕ) (target : IncidentState) (now fresh : ℕ) (db : Db)
    (x : Incident)
    → find_incident i db.incidents ≡ some x
    → guard x.state ≡ false
    → move_where guard i target now fresh db ≡ ok (db, some x)
unfolding move_where
move_where-stays guard i target now fresh db x here off = ground (arith, here, off)
