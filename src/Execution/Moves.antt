-- ===== src/Execution/Moves.antt =====
-- What `finish_execution` finds and writes, where workers read older tables.
use self_healing_agent.Incident.Store.{err, ok, Result}
use self_healing_agent.Prelude.{
  none, arith, true, inr, ◌+◌, inl, Option-cases, refl, some, ◌≡◌, Option, String, ℕ,
}
use self_healing_agent.Execution.Record.{
  rolledback, failed, succeeded, finish_changes, running, commit_finish, refusal, may_become,
  pending, finish_execution, Execution, ExecutionStatus, Executions, put_row,
}

-- The version that a status comes with.
unfoldable pub stamp : ExecutionStatus → ℕ
stamp pending = 1
stamp running = 2
stamp succeeded = 3
stamp failed = 3
stamp rolledback = 4

-- Every stored execution has the version of its status.
abbrev pub IsStamped : Executions → Type 0
IsStamped db = (i : ℕ) (x : Execution) → db.rows i ≡ some x → x.version ≡ stamp x.status

-- A worker's request to move an execution, with the table that it read.
pub record Move : Type 0 where
  pub seen : Executions
  pub execution_id : ℕ
  pub expected_version : ℕ
  pub status : ExecutionStatus
  pub result : String
  pub reason : Option String
  pub now : ℕ

abbrev pub attempt : Move → Executions → Result (Executions × Execution)
attempt m db =
    finish_execution m.seen db m.execution_id m.expected_version m.status m.result m.reason m.now

-- The table after a move.
unfoldable pub table_after : Move → Executions → Executions
table_after m db = elim (attempt m db) [ ok (db', x) ↦ db' | err e ↦ db ]

-- What a successful move found and wrote.
pub record IsFinished (seen db db' : Executions) (i v : ℕ) (status : ExecutionStatus)
    (y : Execution) : Type 0 where
  pub read : Execution
  pub was_read : seen.rows i ≡ some read
  pub read_version : read.version ≡ v
  pub edge : may_become read.status status ≡ true
  pub old : Execution
  pub was : db.rows i ≡ some old
  pub version : old.version ≡ v
  pub rows : db'.rows ≡ put_row i y db.rows
  pub new_version : y.version ≡ v + 1
  pub new_status : y.status ≡ status
  pub new_id : y.id ≡ old.id
  pub keys : db'.by_key ≡ db.by_key

refusal-none :
    (row : Option Execution) (v : ℕ) (status : ExecutionStatus)
    → refusal row v status ≡ none
    → (x : Execution) × (row ≡ some x) × (x.version ≡ v) × (may_become x.status status ≡ true)
unfolding refusal
refusal-none none v status h = absurd (ground (arith, h))
refusal-none (some x) v status h = (x, refl, ground (arith, h), ground (arith, h))

pub finish-effect :
    (seen db db' : Executions) (i v : ℕ) (status : ExecutionStatus) (result : String)
    (reason : Option String) (now : ℕ) (y : Execution)
    → finish_execution seen db i v status result reason now ≡ ok (db', y)
    → IsFinished seen db db' i v status y
unfolding finish_execution commit_finish finish_changes
finish-effect seen db db' i v status result reason now y h =
    elim (Option-cases (refusal (seen.rows i) v status)) [
      | inr (e, bad) ↦ absurd (ground (arith, h, bad))
      | inl good ↦ elim (Option-cases (db.rows i)) [
        | inl gone ↦ absurd (ground (arith, h, good, gone))
        | inr (old, was) ↦
            let (x, was_read, read_version, edge) = refusal-none (seen.rows i) v status good in
            record {
              read = x;
              was_read = was_read;
              read_version = read_version;
              edge = edge;
              old = old;
              was = was;
              version = ground (arith, h, good, was);
              rows = ground (arith, h, good, was);
              new_version = ground (arith, h, good, was);
              new_status = ground (arith, h, good, was);
              new_id = ground (arith, h, good, was);
              keys = ground (arith, h, good, was);
            }
      ]
    ]
