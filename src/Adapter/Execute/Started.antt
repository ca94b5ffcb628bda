-- ===== src/Adapter/Execute/Started.antt =====
-- What other workers' records and moves keep of an execution that has started.
use self_healing_agent.Execution.Once.{row-there, row-here, step-IsStamped}
use self_healing_agent.Incident.Store.{ok}
use self_healing_agent.Execution.Record.{
  put_key, RemediationStep, put_row, checked, Execution, NewExecution, record_execution, row_of,
  Executions,
}
use self_healing_agent.Prelude.{
  false, str_eq→eq, ap, str_eq, ◌∙◌, ==→eq, ◌==◌, Bool-cases, ==_refl, inr, str_eq_refl, sym, arith,
  subst, inl, Option-cases, ◌⊎◌, Option, String, refl, none, ◌≡◌, ℕ, some, ◌≤◌,
}
use self_healing_agent.Execution.Moves.{Move, attempt, IsStamped, stamp, finish-effect, IsFinished}

-- Each row carries the version of its status and stands under its own number.
pub record IsSound (db : Executions) : Type 0 where
  pub stamped : IsStamped db
  pub keyed : (i : ℕ) (x : Execution) → db.rows i ≡ some x → x.id ≡ i

-- What any workers do to the table, in any order: a request is recorded under a fresh number, or an
-- execution is moved, by a worker that read an older table.
infix 40 ◌↝*◌
pub data ◌↝*◌ (db : Executions) : Executions → Type 0 where
  still : db ↝* db
  recorded :
      {a b : Executions} (step : Option RemediationStep) (new : NewExecution) (x : Execution)
      → db ↝* a
      → a.rows new.fresh ≡ none
      → record_execution a step new ≡ ok (b, x)
      → db ↝* b
  finished :
      {a b : Executions} (m : Move) (x : Execution)
      → db ↝* a
      → IsStamped m.seen
      → attempt m a ≡ ok (b, x)
      → db ↝* b

-- The execution under the key has started: its version is past the first.
pub record IsStarted (key : String) (db : Executions) : Type 0 where
  pub sound : IsSound db
  pub number : ℕ
  pub index : db.by_key key ≡ some number
  pub row : Execution
  pub here : db.rows number ≡ some row
  pub past : 2 ≤ row.version

-- Recording returns a row that stands under the key afterwards, and either writes a new one or nothing.
pub record IsRecorded (db db' : Executions) (new : NewExecution) (x : Execution) : Type 0 where
  pub index : db'.by_key new.idempotency_key ≡ some x.id
  pub row : db'.rows x.id ≡ some x
  pub wrote :
      (db' ≡ db)
      ⊎ ((x ≡ row_of new)
          × (db.by_key new.idempotency_key ≡ none)
          × (db' ≡ record {
            rows = put_row new.fresh (row_of new) db.rows;
            by_key = put_key new.idempotency_key new.fresh db.by_key;
          }))

pub record-IsRecorded :
    (db db' : Executions) (step : Option RemediationStep) (new : NewExecution) (x : Execution)
    → IsSound db
    → record_execution db step new ≡ ok (db', x)
    → IsRecorded db db' new x
unfolding record_execution checked row_of put_row put_key
record-IsRecorded db db' step new x sound h = elim (Option-cases (db.by_key new.idempotency_key)) [
  | inl none_yet ↦
      let table : db' ≡ record {
        rows = put_row new.fresh (row_of new) db.rows;
        by_key = put_key new.idempotency_key new.fresh db.by_key;
      } =
        ground (arith, h, none_yet) in
      let row : x ≡ row_of new = ground (arith, h, none_yet) in
      record {
        index = rw (table, row, str_eq_refl new.idempotency_key) refl;
        row = rw (table, row, ==_refl new.fresh) refl;
        wrote = inr (row, none_yet, table);
      }
  | inr (i, has_one) ↦ elim (Option-cases (db.rows i)) [
    | inl gone ↦ absurd (ground (arith, h, has_one, gone))
    | inr (y, here) ↦
        let table : db' ≡ db = ground (arith, h, has_one, here) in
        let row : x ≡ y = ground (arith, h, has_one, here) in
        let id : y.id ≡ i = sound.keyed i y here in
        record {
          index = rw table (has_one ∙ ap some (sym id ∙ ap (λ (z : Execution). z.id) (sym row)));
          row =
              rw table
                (ap db.rows (ap (λ (z : Execution). z.id) row ∙ id) ∙ here ∙ ap some (sym row));
          wrote = inl table;
        }
  ]
]

pub record-IsSound :
    (db db' : Executions) (step : Option RemediationStep) (new : NewExecution) (x : Execution)
    → IsSound db
    → record_execution db step new ≡ ok (db', x)
    → IsSound db'
unfolding row_of put_row stamp
record-IsSound db db' step new x sound h =
    elim (record-IsRecorded db db' step new x sound h).wrote [
      | inl same ↦ subst (λ d. IsSound d) (sym same) sound
      | inr (row, free, table) ↦
          subst (λ d. IsSound d) (sym table)
            (record {
              stamped = λ i y here. elim (Bool-cases (i == new.fresh)) [
                | inl hit ↦ ground (arith, here, hit)
                | inr miss ↦ sound.stamped i y (ground (arith, here, miss))
              ];
              keyed = λ i y here. elim (Bool-cases (i == new.fresh)) [
                | inl hit ↦ ground (arith, here, hit, ==→eq i new.fresh hit)
                | inr miss ↦ sound.keyed i y (ground (arith, here, miss))
              ];
            })
    ]

module _ (m : Move) (db db' : Executions) (y : Execution) (seen : IsStamped m.seen)
    (run : attempt m db ≡ ok (db', y)) where
  effect : IsFinished m.seen db db' m.execution_id m.expected_version m.status y
  effect =
      finish-effect m.seen db db' m.execution_id m.expected_version m.status m.result m.reason m.now
        y run

  pub finish-IsSound : IsSound db → IsSound db'
  finish-IsSound sound = record {
    stamped = step-IsStamped m db 0 seen sound.stamped db' y run;
    keyed = λ i x here. elim (Bool-cases (i == m.execution_id)) [
      | inl mine ↦
          let e = ==→eq i m.execution_id mine in
          let same : y ≡ x =
            ground (arith, ap db'.rows e ∙ row-here db' db m.execution_id y effect.rows, here) in
          ap (λ (z : Execution). z.id) (sym same)
          ∙ effect.new_id
          ∙ sound.keyed m.execution_id effect.old effect.was
          ∙ sym e
      | inr other ↦
          sound.keyed i x (sym (row-there db' db m.execution_id i y effect.rows other) ∙ here)
    ];
  }

  pub finish-IsStarted : (key : String) → IsStarted key db → IsStarted key db'
  finish-IsStarted key s = elim (Bool-cases (s.number == m.execution_id)) [
    | inl mine ↦
        let e = ==→eq s.number m.execution_id mine in
        let same : effect.old ≡ s.row = ground (arith, effect.was, s.here, ap db.rows e) in
        let older = ap (λ (z : Execution). z.version) same in
        record {
          sound = finish-IsSound s.sound;
          number = s.number;
          index = ap (λ f. f key) effect.keys ∙ s.index;
          row = y;
          here = ap db'.rows e ∙ row-here db' db m.execution_id y effect.rows;
          past = omega (arith, s.past, effect.new_version, effect.version, older);
        }
    | inr other ↦ record {
      sound = finish-IsSound s.sound;
      number = s.number;
      index = ap (λ f. f key) effect.keys ∙ s.index;
      row = s.row;
      here = row-there db' db m.execution_id s.number y effect.rows other ∙ s.here;
      past = s.past;
    }
  ]

pub record-IsStarted :
    (db db' : Executions) (step : Option RemediationStep) (new : NewExecution) (x : Execution)
    (key : String)
    → db.rows new.fresh ≡ none
    → record_execution db step new ≡ ok (db', x)
    → IsStarted key db
    → IsStarted key db'
unfolding put_row put_key
record-IsStarted db db' step new x key free h s =
    elim (record-IsRecorded db db' step new x s.sound h).wrote [
      | inl same ↦ subst (λ d. IsStarted key d) (sym same) s
      | inr (row, unused, table) ↦ elim (Bool-cases (str_eq key new.idempotency_key)) [
        | inl hit ↦ absurd (ground (arith, unused, s.index, str_eq→eq key new.idempotency_key hit))
        | inr miss ↦ record {
          sound = record-IsSound db db' step new x s.sound h;
          number = s.number;
          index = ap (λ (d : Executions). d.by_key key) table ∙ rw miss s.index;
          row = s.row;
          here =
              let other : (s.number == new.fresh) ≡ false = ground (arith, free, s.here) in
              ap (λ (d : Executions). d.rows s.number) table ∙ rw other s.here;
          past = s.past;
        }
      ]
    ]

-- A started execution stays started.
pub ↝*-IsStarted :
    (key : String) (db db' : Executions) → db ↝* db' → IsStarted key db → IsStarted key db'
↝*-IsStarted key db db' still s = s
↝*-IsStarted key db db' (recorded {a} step new x path free h) s =
    record-IsStarted a db' step new x key free h (↝*-IsStarted key db a path s)
↝*-IsStarted key db db' (finished {a} m x path seen h) s =
    finish-IsStarted m a db' x seen h key (↝*-IsStarted key db a path s)
