-- ===== src/Execution/Idempotent.antt =====
-- A step is recorded once under its key.
use self_healing_agent.Incident.Store.{ok}
use self_healing_agent.Prelude.{
  arith, inr, ==_refl, inl, Option-cases, refl, str_eq_refl, some, ◌≡◌, Option, String, ℕ,
}
use self_healing_agent.Execution.Record.{
  row_of, NewExecution, RemediationStep, same_execution, matches_step, checked, Execution, put_key,
  record_execution, Executions, put_row,
}

str-put : (k : String) (i : ℕ) (keys : String → Option ℕ) → put_key k i keys k ≡ some i
unfolding put_key
str-put k i keys = rw (str_eq_refl k) refl

row-put : (i : ℕ) (x : Execution) (rows : ℕ → Option Execution) → put_row i x rows i ≡ some x
unfolding put_row
row-put i x rows = rw (==_refl i) refl

-- Recording is idempotent: where it returns an execution, the same request made again, with whatever
-- fresh identifier, returns that execution and changes nothing.
pub record-idempotent :
    (db db' : Executions) (step : Option RemediationStep) (new : NewExecution) (x : Execution)
    (fresh : ℕ)
    → record_execution db step new ≡ ok (db', x)
    → record_execution db' step (record new { fresh = fresh }) ≡ ok (db', x)
unfolding record_execution checked matches_step same_execution
record-idempotent db db' step new x fresh h = elim (Option-cases (db.by_key new.idempotency_key)) [
  | inl none_yet ↦
      let table : db' ≡ record {
        rows = put_row new.fresh (row_of new) db.rows;
        by_key = put_key new.idempotency_key new.fresh db.by_key;
      } =
        ground (arith, h, none_yet) in
      let row : x ≡ row_of new = ground (arith, h, none_yet) in
      let index : db'.by_key new.idempotency_key ≡ some new.fresh =
        rw table (str-put new.idempotency_key new.fresh db.by_key) in
      let stored : db'.rows new.fresh ≡ some x =
        rw (table, row) (row-put new.fresh (row_of new) db.rows) in
      ground (arith, h, none_yet, index, stored, row)
  | inr (i, known) ↦ elim (Option-cases (db.rows i)) [
    | inl gone ↦ absurd (ground (arith, h, known, gone))
    | inr (y, stored) ↦
        let table : db ≡ db' = ground (arith, h, known, stored) in
        let row : y ≡ x = ground (arith, h, known, stored) in
        rw⁻¹ table (ground (arith, h, known, stored))
  ]
]
