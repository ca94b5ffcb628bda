-- ===== src/Nodes/Close.antt =====
-- `resolve_node` and `escalate_node`, with a session factory: one transaction, whose exceptions are caught. Both
-- answer with their status whatever happens, and with a version where they know one.
use self_healing_agent.Nodes.Execute.Settled.{moved-fields}
use self_healing_agent.Prelude.{
  ◌∙◌, ap, ◌⊎◌, Bool-cases, sym, inr, subst, inl, arith, Option-cases, if◌then◌else◌, true, Bool,
  Option, ℕ, none, some, ◌≡◌,
}
use self_healing_agent.Incident.Store.{Result-cases, Db, find_incident, Incident, ok, err}
use self_healing_agent.Incident.Transition.{transition}
use self_healing_agent.Incident.Transition.Laws.{transition-effect}
use self_healing_agent.Incident.States.{escalated, IncidentState, is_resolved, is_escalated}

-- The transition, with its exceptions caught.
unfoldable pub try_transition : IncidentState → ℕ → ℕ → ℕ → ℕ → Db → Db × Option ℕ
try_transition target incident_id version now fresh db =
    elim (transition db incident_id version target now fresh) [
      | ok (db', updated) ↦ (db', some updated.version)
      | err e ↦ (db, none)
    ]

-- The transaction of either node, for its target and the test for it: the store after it, and the version.
unfoldable pub close_at :
    (IncidentState → Bool) → IncidentState → ℕ → ℕ → ℕ → ℕ → Db → Db × Option ℕ
close_at is_target target incident_id version now fresh db =
    let moved : Db × Option ℕ = elim (transition db incident_id version target now fresh) [
      | ok (db', updated) ↦ (db', some updated.version)
      | err e ↦ (db, none)
    ] in
    elim (find_incident incident_id db.incidents) [
      | none ↦ moved
      | some inc ↦ if is_target inc.state then (db, some inc.version) else moved
    ]

unfoldable pub resolve_node : ℕ → ℕ → ℕ → ℕ → Db → Db × Option ℕ
resolve_node = close_at is_resolved IncidentState.resolved

unfoldable pub escalate_node : ℕ → ℕ → ℕ → ℕ → Db → Db × Option ℕ
escalate_node = close_at is_escalated escalated

-- The store has the incident in the state, at the version.
pub record IsClosed (db : Db) (i : ℕ) (s : IncidentState) (v : ℕ) : Type 0 where
  pub row : Incident
  pub here : find_incident i db.incidents ≡ some row
  pub state : row.state ≡ s
  pub version : row.version ≡ v

module _ (target : IncidentState) (i version now fresh : ℕ) (db : Db) where
  abbrev tried : Db × Option ℕ
  tried = try_transition target i version now fresh db

  tried-honest : (v : ℕ) → tried.1 ≡ some v → IsClosed tried.0 i target v
  unfolding try_transition
  tried-honest v h = elim (Result-cases (transition db i version target now fresh)) [
    | inl (e, bad) ↦ absurd (ground (arith, h, bad))
    | inr ((db', y), good) ↦
        let e = transition-effect db i version target now fresh db' y good in
        let (state, new) = moved-fields e.old version target now in
        let table : tried.0 ≡ db' = ground (arith, good) in
        let its : y.version ≡ v = ground (arith, h, good) in
        subst (λ d. IsClosed d i target v) (sym table)
          (record {
            row = y;
            here = e.stored;
            state = ap (λ (z : Incident). z.state) e.row ∙ state;
            version = its;
          })
  ]

  tried-silent : tried.1 ≡ none → tried.0 ≡ db
  unfolding try_transition
  tried-silent h = elim (Result-cases (transition db i version target now fresh)) [
    | inl (e, bad) ↦ ground (arith, bad)
    | inr (r, good) ↦ absurd (ground (arith, h, good))
  ]

  module _ (is_target : IncidentState → Bool) where
    abbrev closed : Db × Option ℕ
    closed = close_at is_target target i version now fresh db

    closed-cases :
        (closed ≡ tried)
        ⊎ ((x : Incident) × (find_incident i db.incidents ≡ some x)
            × (is_target x.state ≡ true)
            × (closed ≡ (db, some x.version)))
    unfolding close_at try_transition transition
    closed-cases = elim (Option-cases (find_incident i db.incidents)) [
      | inl gone ↦ inl (ground (arith, gone))
      | inr (x, here) ↦ elim (Bool-cases (is_target x.state)) [
        | inr other ↦ inl (ground (arith, here, other))
        | inl already ↦ inr (x, here, already, ground (arith, here, already))
      ]
    ]

    close_at-honest :
        ((s : IncidentState) → is_target s ≡ true → s ≡ target)
        → ((v : ℕ) → closed.1 ≡ some v → IsClosed closed.0 i target v)
          × (closed.1 ≡ none → closed.0 ≡ db)
    close_at-honest tells =
        let P : Db × Option ℕ → Type 0 = λ (c : Db × Option ℕ).
          ((v : ℕ) → c.1 ≡ some v → IsClosed c.0 i target v) × (c.1 ≡ none → c.0 ≡ db) in
        elim closed-cases [
          | inl same ↦ subst P (sym same) (tried-honest, tried-silent)
          | inr (x, here, already, same) ↦ subst P (sym same) (
            (λ v h. record {
              row = x;
              here = here;
              state = tells x.state already;
              version = ground (arith, h);
            }),
            λ h. absurd (ground (arith, h)),
          )
        ]

-- Where the node that resolves or escalates answers with a version, the incident is stored in that state at
-- that version; where it answers without one, it has changed nothing.
pub close-honest :
    (i version now fresh : ℕ) (db : Db)
    → let a = resolve_node i version now fresh db in
      let b = escalate_node i version now fresh db in
      ((v : ℕ) → a.1 ≡ some v → IsClosed a.0 i IncidentState.resolved v)
      × (a.1 ≡ none → a.0 ≡ db)
      × ((v : ℕ) → b.1 ≡ some v → IsClosed b.0 i escalated v)
      × (b.1 ≡ none → b.0 ≡ db)
unfolding resolve_node escalate_node is_resolved is_escalated
close-honest i version now fresh db =
    let (resolves, nothing) =
      close_at-honest IncidentState.resolved i version now fresh db is_resolved
        (λ s h. ground (arith, h)) in
    let (escalates, nothing') =
      close_at-honest escalated i version now fresh db is_escalated (λ s h. ground (arith, h)) in
    (resolves, nothing, escalates, nothing')
