-- ===== src/Incident/Transition/Laws.antt =====
-- When a transition succeeds, what it does then, and what a race of two does.
use self_healing_agent.Prelude.{
  List, ==_refl, if◌then◌else◌, ◌++◌, ◌∷◌, [], refl, ◌≢◌, some, ==_refl, Option-cases, inr, some,
  inl, ◌≢◌, ℕ, ◌≡◌, ◌<◌, true, false, ◌↔◌, arith,
}
use self_healing_agent.Incident.States.{is_approved, IncidentState, can_move, is_retry}
use self_healing_agent.Incident.Store.{
  find-update_other, find-update, update-find, update-some, Result-cases, find_incident,
  update_incident, Db, ok, Incident,
}
use self_healing_agent.Incident.Transition.{
  may_require, require_changes, require_incident_approval, approved_event, transition, at_version,
  commit_transition, plan_transition, transition_between, apply_changes, check, changes_for,
  breaks_approval, Changes,
}

-- What the state machine, the version, the approval requirement and the retry limit ask of a move.
pub record IsLegal (x : Incident) (v : ℕ) (target : IncidentState) : Type 0 where
  pub current : x.version ≡ v
  pub edge : can_move x.state target ≡ true
  pub approval : breaks_approval x target ≡ false
  pub budget : is_retry x.state target ≡ true → x.attempts < x.retry_limit

pub check_iff :
    (x : Incident) (v : ℕ) (target : IncidentState) (now : ℕ)
    → (check x v target now ≡ ok (changes_for x v target now)) ↔ IsLegal x v target
unfolding check
check_iff x v target now = (λ h. ground arith, λ h. ground arith)

check-ok :
    (x : Incident) (v : ℕ) (target : IncidentState) (now : ℕ) {c : Changes}
    → check x v target now ≡ ok c
    → c ≡ changes_for x v target now
unfolding check
check-ok x v target now h = ground arith

-- The row after a move.
unfoldable pub moved : Incident → ℕ → IncidentState → ℕ → Incident
moved x v target now = apply_changes (changes_for x v target now) x

-- A successful write between two reads, taken apart.
module _ (seen db : Db) (i v : ℕ) (target : IncidentState) (now fresh : ℕ) where
  pub plan-check :
      (x : Incident)
      → find_incident i db.incidents ≡ some x
      → plan_transition db i v target now ≡ check x v target now
  unfolding plan_transition
  plan-check x here = rw (here, plan_transition) refl

  pub plan-ok :
      (c : Changes)
      → plan_transition seen i v target now ≡ ok c
      → (x : Incident) × (find_incident i seen.incidents ≡ some x)
        × IsLegal x v target
        × (c ≡ changes_for x v target now)
  unfolding plan_transition
  plan-ok c h = elim (Option-cases (find_incident i seen.incidents)) [
    | inl gone ↦ absurd (ground arith)
    | inr (x, here) ↦
        let e : check x v target now ≡ ok c = ground arith in
        let same = check-ok x v target now e in
        (x, here, (check_iff x v target now).0 (cc (e, same)), same)
  ]

  pub commit-ok :
      (c : Changes) (db' : Db) (y : Incident)
      → commit_transition db i v target fresh c ≡ ok (db', y)
      → (update_incident i (at_version v) (apply_changes c) db.incidents ≡ some (y, db'.incidents))
        × (db'.outbox ≡ (
            if is_approved target then db.outbox ++ approved_event fresh i v y ∷ [] else db.outbox))
  unfolding commit_transition
  commit-ok c db' y h =
      elim (Option-cases (update_incident i (at_version v) (apply_changes c) db.incidents)) [
        | inl gone ↦ absurd (ground arith)
        | inr (r, done) ↦ (ground arith, ground arith)
      ]

  pub between-ok :
      (db' : Db) (y : Incident)
      → transition_between seen db i v target now fresh ≡ ok (db', y)
      → (c : Changes) × (plan_transition seen i v target now ≡ ok c)
        × (commit_transition db i v target fresh c ≡ ok (db', y))
  unfolding transition_between
  between-ok db' y h = elim (Result-cases (plan_transition seen i v target now)) [
    | inl (e, bad) ↦ absurd (ground arith)
    | inr (c, good) ↦ (c, good, ground arith)
  ]

-- What a committed move leaves behind.
pub record IsMoved (db db' : Db) (i v : ℕ) (target : IncidentState) (now fresh : ℕ) (y : Incident)
    : Type 0 where
  pub old : Incident
  pub was : find_incident i db.incidents ≡ some old
  pub legal : IsLegal old v target
  pub row : y ≡ moved old v target now
  pub stored : find_incident i db'.incidents ≡ some y
  pub others : (j : ℕ) → j ≢ i → find_incident j db'.incidents ≡ find_incident j db.incidents
  pub told :
      db'.outbox
      ≡ (if is_approved target then db.outbox ++ approved_event fresh i v y ∷ [] else db.outbox)

pub moved-id : (c : Changes) (x : Incident) → (apply_changes c x).id ≡ x.id
unfolding apply_changes
moved-id c x = refl

moved-row :
    (rows : List Incident) (i v : ℕ) (target : IncidentState) (now : ℕ) (x old y : Incident)
    (c : Changes)
    → find_incident i rows ≡ some x
    → find_incident i rows ≡ some old
    → y ≡ apply_changes c old
    → c ≡ changes_for x v target now
    → y ≡ moved x v target now
unfolding moved
moved-row rows i v target now x old y c here was new shape =
    let same : x ≡ old = ground (arith, here, was) in cc (new, shape, same)

pub transition-effect :
    (db : Db) (i v : ℕ) (target : IncidentState) (now fresh : ℕ) (db' : Db) (y : Incident)
    → transition db i v target now fresh ≡ ok (db', y)
    → IsMoved db db' i v target now fresh y
unfolding transition
transition-effect db i v target now fresh db' y h =
    let (c, planned, committed) = between-ok db db i v target now fresh db' y h in
    let (x, here, legal, shape) = plan-ok db db i v target now fresh c planned in
    let (run, box) = commit-ok db db i v target now fresh c db' y committed in
    let set = apply_changes c in
    let (old, was, good, new) = update-find i (at_version v) set db.incidents db'.incidents y run in
    record {
      old = x;
      was = here;
      legal = legal;
      row = moved-row db.incidents i v target now x old y c here was new shape;
      stored = find-update i (at_version v) set (moved-id c) db.incidents db'.incidents y run;
      others = λ j n.
          find-update_other i (at_version v) set (moved-id c) j n db.incidents db'.incidents y run;
      told = box;
    }

-- A transition commits exactly where the row exists and the move is legal for it.
pub transition-ok_iff :
    (db : Db) (i v : ℕ) (target : IncidentState) (now fresh : ℕ)
    → ((r : Db × Incident) × (transition db i v target now fresh ≡ ok r))
      ↔ ((x : Incident) × (find_incident i db.incidents ≡ some x) × IsLegal x v target)
unfolding transition transition_between plan_transition commit_transition
transition-ok_iff db i v target now fresh = (
  (λ ((db', y), h).
      let e = transition-effect db i v target now fresh db' y h in (e.old, e.was, e.legal)),
  (λ (x, here, legal).
      let good = (check_iff x v target now).1 legal in
      let (rows, run) =
        update-some i (at_version v) (apply_changes (changes_for x v target now)) db.incidents x
          here (rw legal.current (==_refl v)) in
      elim (Result-cases (transition db i v target now fresh)) [
        | inl (e, bad) ↦ absurd (ground (arith, here, good, run, bad))
        | inr done ↦ done
      ]),
)

-- What a committed approval requirement leaves behind.
pub record IsRequired (db db' : Db) (i v : ℕ) (y : Incident) : Type 0 where
  pub old : Incident
  pub was : find_incident i db.incidents ≡ some old
  pub allowed : may_require v old ≡ true
  pub row : y ≡ require_changes v old
  pub stored : find_incident i db'.incidents ≡ some y
  pub others : (j : ℕ) → j ≢ i → find_incident j db'.incidents ≡ find_incident j db.incidents
  pub told : db'.outbox ≡ db.outbox

required-id : (v : ℕ) (x : Incident) → (require_changes v x).id ≡ x.id
unfolding require_changes
required-id v x = refl

-- Where the approval requirement is enabled, the row was PLANNED, at the version given and without it,
-- and nothing else changes.
pub require-effect :
    (db : Db) (i v : ℕ) (db' : Db) (y : Incident)
    → require_incident_approval db i v ≡ ok (db', y)
    → IsRequired db db' i v y
unfolding require_incident_approval
require-effect db i v db' y h =
    elim (Option-cases (update_incident i (may_require v) (require_changes v) db.incidents)) [
      | inl gone ↦ absurd (ground arith)
      | inr (r, done) ↦
          let p = may_require v in
          let set = require_changes v in
          let run : update_incident i p set db.incidents ≡ some (y, db'.incidents) = ground arith in
          let (old, was, good, new) = update-find i p set db.incidents db'.incidents y run in
          record {
            old = old;
            was = was;
            allowed = good;
            row = new;
            stored = find-update i p set (required-id v) db.incidents db'.incidents y run;
            others = λ j n.
                find-update_other i p set (required-id v) j n db.incidents db'.incidents y run;
            told = ground arith;
          }
    ]
