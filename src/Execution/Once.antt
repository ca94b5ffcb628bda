-- ===== src/Execution/Once.antt =====
-- However workers interleave, a recorded step is dispatched once.
use self_healing_agent.Execution.Moves.{finish-effect, table_after, IsStamped, attempt, Move, stamp}
use self_healing_agent.Incident.Store.{Failure, Result-cases, err, ok}
use self_healing_agent.Prelude.{
  sym, subst, ==→eq, Bool-cases, ◌∙◌, ltb, false, ◌≤◌, All, ap, none, arith, true, [], inr, ◌+◌,
  ==_refl, inl, ◌∷◌, ◌&&◌, ◌==◌, Option-cases, if◌then◌else◌, refl, some, ◌≡◌, List, ℕ,
}
use self_healing_agent.Execution.Record.{
  may_become, is_running, Execution, ExecutionStatus, Executions, put_row,
}

-- Whether a move takes the execution `i` to RUNNING, and how many of a sequence do.
unfoldable pub dispatches_now : ℕ → Move → Executions → ℕ
dispatches_now i m db = elim (attempt m db) [
  | ok (db', x) ↦ if m.execution_id == i && is_running m.status then 1 else 0
  | err e ↦ 0
]

unfoldable pub dispatches : ℕ → List Move → Executions → ℕ
dispatches i [] db = 0
dispatches i (m ∷ ms) db = dispatches_now i m db + dispatches i ms (table_after m db)

-- Whether the execution has been dispatched: its version is past the first.
unfoldable pub dispatched : ℕ → Executions → ℕ
dispatched i db = elim (db.rows i) [ none ↦ 0 | some x ↦ if ltb 1 x.version then 1 else 0 ]

dispatched-row :
    (i : ℕ) (db : Executions) (x : Execution)
    → db.rows i ≡ some x
    → dispatched i db ≡ (if ltb 1 x.version then 1 else 0)
unfolding dispatched
dispatched-row i db x here = rw (here, dispatched) refl

dispatched-same :
    (i : ℕ) (db db' : Executions) → db'.rows i ≡ db.rows i → dispatched i db' ≡ dispatched i db
unfolding dispatched
dispatched-same i db db' h = ground (arith, h)

dispatched-bound : (i : ℕ) (db : Executions) → dispatched i db ≤ 1
unfolding dispatched
dispatched-bound i db = elim (Option-cases (db.rows i)) [
  | inl gone ↦ ground (arith, gone)
  | inr (x, here) ↦ ground (arith, here)
]

-- A version and its successor, as statuses.
stamp-edge : (s t : ExecutionStatus) → may_become s t ≡ true → stamp t ≡ stamp s + 1
unfolding may_become stamp
stamp-edge s t h = ground arith

running-edge : (s t : ExecutionStatus) → may_become s t ≡ true → is_running t ≡ true → stamp s ≡ 1
unfolding may_become stamp is_running
running-edge s t h r = ground arith

pub row-here :
    (db' db : Executions) (i : ℕ) (y : Execution)
    → db'.rows ≡ put_row i y db.rows
    → db'.rows i ≡ some y
unfolding put_row
row-here db' db i y h = ap (λ r. r i) h ∙ rw (==_refl i) refl

pub row-there :
    (db' db : Executions) (i j : ℕ) (y : Execution)
    → db'.rows ≡ put_row i y db.rows
    → (j == i) ≡ false
    → db'.rows j ≡ db.rows j
unfolding put_row
row-there db' db i j y h n = ap (λ r. r j) h ∙ rw n refl

module _ (m : Move) (db : Executions) (i : ℕ) (seen : IsStamped m.seen)
    (stored : IsStamped db) where
  step-count :
      (db' : Executions) (y : Execution)
      → attempt m db ≡ ok (db', y)
      → (if m.execution_id == i && is_running m.status then 1 else 0) + dispatched i db
        ≤ dispatched i db'
  step-count db' y h =
      let f =
        finish-effect m.seen db db' m.execution_id m.expected_version m.status m.result m.reason
          m.now y h in
      let from = seen m.execution_id f.read f.was_read in
      elim (Bool-cases (i == m.execution_id)) [
        | inr other ↦
            let same : dispatched i db' ≡ dispatched i db =
              dispatched-same i db db' (row-there db' db m.execution_id i y f.rows other) in
            ground (arith, other, same)
        | inl mine ↦
            let e = ==→eq i m.execution_id mine in
            let before : dispatched i db ≡ (if ltb 1 f.old.version then 1 else 0) =
              dispatched-row i db f.old (ap db.rows e ∙ f.was) in
            let after : dispatched i db' ≡ (if ltb 1 y.version then 1 else 0) =
              dispatched-row i db' y (ap db'.rows e ∙ row-here db' db m.execution_id y f.rows) in
            elim (Bool-cases (is_running m.status)) [
              | inl runs ↦
                  let first = running-edge f.read.status m.status f.edge runs in
                  ground (
                    arith, before, after, first, from, f.read_version, f.version, f.new_version,
                    runs,
                  )
              | inr not_yet ↦ ground (arith, before, after, f.version, f.new_version, not_yet)
            ]
      ]

  pub step-IsStamped :
      (db' : Executions) (y : Execution) → attempt m db ≡ ok (db', y) → IsStamped db'
  step-IsStamped db' y h j x here =
      let f =
        finish-effect m.seen db db' m.execution_id m.expected_version m.status m.result m.reason
          m.now y h in
      let from = seen m.execution_id f.read f.was_read in
      elim (Bool-cases (j == m.execution_id)) [
        | inr other ↦ stored j x (sym (row-there db' db m.execution_id j y f.rows other) ∙ here)
        | inl mine ↦
            let e = ==→eq j m.execution_id mine in
            let at : db'.rows j ≡ some y =
              ap db'.rows e ∙ row-here db' db m.execution_id y f.rows in
            let same : y ≡ x = ground (arith, at, here) in
            let edge = stamp-edge f.read.status m.status f.edge in
            let version : y.version ≡ stamp m.status =
              omega (arith, f.new_version, f.read_version, from, edge) in
            subst (λ (z : Execution). z.version ≡ stamp z.status) same
              (version ∙ ap stamp (sym f.new_status))
      ]

  table_after-ok :
      (db' : Executions) (y : Execution) → attempt m db ≡ ok (db', y) → table_after m db ≡ db'
  unfolding table_after
  table_after-ok db' y h = rw (h, table_after) refl

  table_after-err : (e : Failure) → attempt m db ≡ err e → table_after m db ≡ db
  unfolding table_after
  table_after-err e h = rw (h, table_after) refl

  after-IsStamped : IsStamped (table_after m db)
  after-IsStamped = elim (Result-cases (attempt m db)) [
    | inl (e, bad) ↦ subst IsStamped (sym (table_after-err e bad)) stored
    | inr ((db', y), good) ↦
        subst IsStamped (sym (table_after-ok db' y good)) (step-IsStamped db' y good)
  ]

  now-ok :
      (db' : Executions) (y : Execution)
      → attempt m db ≡ ok (db', y)
      → dispatches_now i m db ≡ (if m.execution_id == i && is_running m.status then 1 else 0)
  unfolding dispatches_now
  now-ok db' y h = rw (h, dispatches_now) refl

  now-err : (e : Failure) → attempt m db ≡ err e → dispatches_now i m db ≡ 0
  unfolding dispatches_now
  now-err e h = rw (h, dispatches_now) refl

  now-count : dispatches_now i m db + dispatched i db ≤ dispatched i (table_after m db)
  now-count = elim (Result-cases (attempt m db)) [
    | inl (e, bad) ↦ rw (table_after-err e bad) (omega (arith, now-err e bad))
    | inr ((db', y), good) ↦
        rw (table_after-ok db' y good, now-ok db' y good) (step-count db' y good)
  ]

dispatches-bound :
    (i : ℕ) (ms : List Move) (db : Executions)
    → All (λ (m : Move). IsStamped m.seen) ms
    → IsStamped db
    → dispatches i ms db + dispatched i db ≤ 1
unfolding dispatches
dispatches-bound i [] db seen stored = omega (arith, dispatched-bound i db)
dispatches-bound i (m ∷ ms) db seen stored =
    let rest =
      dispatches-bound i ms (table_after m db) seen.1 (after-IsStamped m db i seen.0 stored) in
    omega (arith, rest, now-count m db i seen.0 stored)

-- Where every table that workers read, and the one they start from, has its executions at the version
-- of their status, an execution is moved to RUNNING at most once, whatever they attempt and however old
-- the tables are that they read.
pub dispatch-once :
    (i : ℕ) (ms : List Move) (db : Executions)
    → All (λ (m : Move). IsStamped m.seen) ms
    → IsStamped db
    → dispatches i ms db ≤ 1
dispatch-once i ms db seen stored = omega (arith, dispatches-bound i ms db seen stored)
