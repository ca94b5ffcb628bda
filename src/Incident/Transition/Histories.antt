-- ===== src/Incident/Transition/Histories.antt =====
-- Sequences of the versioned writes of control_plane.py on one store. Each request reads the store that
-- it writes; Races is about reads of an older one.
use self_healing_agent.Incident.Creation.{new_incident}
use self_healing_agent.Prelude.{
  Bool, String, inl, inr, subst, sym, ◌∙◌, ◌≢◌, ℕ_discrete, inr, inl, ℕ, ◌≡◌, ◌≤◌, ◌+◌, ◌*◌, ◌-◌,
  List, [], ◌∷◌, arith, some, if◌then◌else◌, true, false, ◌<◌, Bool-cases,
}
use self_healing_agent.Incident.States.{
  Severity, IncidentState, can_move, is_retry, detected, triaged, diagnosed, planned,
  pending_approval, approved, executing, verifying, failed,
}
use self_healing_agent.Incident.Store.{find_incident, Result-cases, Incident, Db, ok, err}
use self_healing_agent.Incident.Transition.{
  may_require, require_changes, transition, require_incident_approval, apply_changes, changes_for,
}
use self_healing_agent.Incident.Transition.Laws.{transition-effect, require-effect, moved, IsLegal}

-- A request that a worker makes, with the time and the fresh UUID that its transaction gets.
pub data Request : Type 0 where
  move : ℕ → ℕ → IncidentState → ℕ → ℕ → Request
  ask : ℕ → ℕ → Request

-- The store after a request: a failed one is rolled back.
unfoldable pub serve : Request → Db → Db
serve (move i v target now fresh) db = elim (transition db i v target now fresh) [
  | ok (db', y) ↦ db'
  | err e ↦ db
]
serve (ask i v) db = elim (require_incident_approval db i v) [ ok (db', y) ↦ db' | err e ↦ db ]

unfoldable pub serve_all : List Request → Db → Db
serve_all [] db = db
serve_all (r ∷ rs) db = serve_all rs (serve r db)

-- How many moves a state is from the end, with no further retry.
unfoldable pub rank : IncidentState → ℕ
rank detected = 8
rank triaged = 7
rank diagnosed = 6
rank planned = 5
rank pending_approval = 4
rank approved = 3
rank executing = 2
rank verifying = 1
rank failed = 1
rank _ = 0

-- The writes that an incident has left at most.
unfoldable pub writes_left : Incident → ℕ
writes_left x =
    6 * (x.retry_limit - x.attempts) + rank x.state + (if x.approval_required then 0 else 1)

-- The retries are within the limit, and so is the number of writes.
pub record IsBounded (x : Incident) : Type 0 where
  pub retries : x.attempts ≤ x.retry_limit
  pub writes : x.version + writes_left x ≤ 6 * x.retry_limit + 10

rank-can_move : (s t : IncidentState) → can_move s t ≡ true → is_retry s t ≡ false → rank t < rank s
unfolding can_move is_retry rank
rank-can_move s t h n = ground arith

rank-is_retry : (s t : IncidentState) → is_retry s t ≡ true → (rank s ≡ 1) × (rank t ≡ 6)
unfolding is_retry rank
rank-is_retry s t h = ground arith

moved-IsBounded :
    (x : Incident) (v : ℕ) (target : IncidentState) (now : ℕ)
    → IsLegal x v target
    → IsBounded x
    → IsBounded (moved x v target now)
unfolding moved apply_changes changes_for writes_left
moved-IsBounded x v target now l b = elim (Bool-cases (is_retry x.state target)) [
  | inl again ↦
      let r = rank-is_retry x.state target again in
      record {
        retries = rw again (ground (arith, l.budget again, b.retries));
        writes = rw again (ground (arith, l.budget again, b.retries, b.writes, l.current, r));
      }
  | inr once ↦
      let r = rank-can_move x.state target l.edge once in
      record {
        retries = rw once b.retries;
        writes = rw once (ground (arith, b.writes, l.current, r));
      }
]

required-IsBounded :
    (x : Incident) (v : ℕ) → may_require v x ≡ true → IsBounded x → IsBounded (require_changes v x)
unfolding require_changes writes_left
required-IsBounded x v m b = record { retries = b.retries; writes = ground (arith, b.writes, m) }

-- What holds of every stored incident.
abbrev pub EveryRow {ℓ} : (Incident → Type ℓ) → Db → Type ℓ
EveryRow P db = (i : ℕ) (x : Incident) → find_incident i db.incidents ≡ some x → P x

-- Where one row is replaced, the property needs to be shown of the new one only.
every_row :
    (db db' : Db) (i : ℕ) (y : Incident)
    → find_incident i db'.incidents ≡ some y
    → ((j : ℕ) → j ≢ i → find_incident j db'.incidents ≡ find_incident j db.incidents)
    → IsBounded y
    → EveryRow IsBounded db
    → EveryRow IsBounded db'
every_row db db' i y stored others new old j x here = elim (ℕ_discrete j i) [
  | yes same ↦ let e : y ≡ x = ground (arith, stored, here, same) in subst IsBounded e new
  | no apart ↦ old j x (sym (others j apart) ∙ here)
]

serve-IsBounded : (r : Request) (db : Db) → EveryRow IsBounded db → EveryRow IsBounded (serve r db)
unfolding serve
serve-IsBounded (move i v target now fresh) db h =
    elim (Result-cases (transition db i v target now fresh)) [
      | inl (e, bad) ↦ rw (bad, serve) h
      | inr ((db', y), good) ↦
          let m = transition-effect db i v target now fresh db' y good in
          rw (good, serve)
            (every_row db db' i y m.stored m.others
              (subst IsBounded (sym m.row)
                (moved-IsBounded m.old v target now m.legal (h i m.old m.was)))
              h)
    ]
serve-IsBounded (ask i v) db h = elim (Result-cases (require_incident_approval db i v)) [
  | inl (e, bad) ↦ rw (bad, serve) h
  | inr ((db', y), good) ↦
      let m = require-effect db i v db' y good in
      rw (good, serve)
        (every_row db db' i y m.stored m.others
          (subst IsBounded (sym m.row) (required-IsBounded m.old v m.allowed (h i m.old m.was))) h)
]

serve_all-IsBounded :
    (rs : List Request) (db : Db) → EveryRow IsBounded db → EveryRow IsBounded (serve_all rs db)
unfolding serve_all
serve_all-IsBounded [] db h = h
serve_all-IsBounded (r ∷ rs) db h = serve_all-IsBounded rs (serve r db) (serve-IsBounded r db h)

-- Whatever requests workers make, in whatever order, an incident that starts within the bounds is
-- retried at most `retry_limit` times and written at most to version `6 * retry_limit + 10`.
pub lifecycle_bound :
    (rs : List Request) (db : Db)
    → EveryRow IsBounded db
    → EveryRow
        (λ x. (x.attempts ≤ x.retry_limit) × (x.version ≤ 6 * x.retry_limit + 10))
        (serve_all rs db)
lifecycle_bound rs db h i x here =
    let b = serve_all-IsBounded rs db h i x here in (b.retries, omega (arith, b.writes))

-- A new incident is within the bounds.
pub new_incident-IsBounded :
    (fresh resource_id : ℕ) (key : String) (severity : Severity) (approval_required : Bool)
    (now : ℕ)
    → IsBounded (new_incident fresh resource_id key severity approval_required now)
unfolding new_incident writes_left rank
new_incident-IsBounded fresh resource_id key severity approval_required now = record {
  retries = omega arith;
  writes = ground arith;
}
