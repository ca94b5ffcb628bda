-- ===== src/Adapter/Execute/Once.antt =====
-- A restart is asked for under a lease, for an execution that this call started, and once for each key.
use self_healing_agent.Lock.Grants.{acquire-grants}
use self_healing_agent.Lock.Service.{
  granted, Locks, AutomationControl, verify_lock, check_safety, acquire_lock,
}
use self_healing_agent.Execution.Once.{row-here}
use self_healing_agent.Adapter.Execute.Claimed.{Tried-cases, claim-dispatching, IsClaimed}
use self_healing_agent.Execution.Moves.{finish-effect, IsFinished, Move, stamp}
use self_healing_agent.Execution.Record.{row_of, ExecutionStatus, Execution, Executions, may_become}
use self_healing_agent.Adapter.Intent.{ExecutionOutcome, ExecutionIntent, Host}
use self_healing_agent.Adapter.Execute.{
  not_started, already, answered, early_check, conclude, request_of, ended, dispatching, claim,
  claim_and_dispatch, execute,
}
use self_healing_agent.Adapter.World.{raised, Ended, Tried, returned, Tables, World}
use self_healing_agent.Prelude.{
  refl, ◌+◌, ◌<◌, ◌↔◌, Option, String, Option-cases, subst, inl, inr, sym, ◌∙◌, ap, arith, true,
  ◌⊎◌, none, ◌≡◌, ℕ, some,
}
use self_healing_agent.Adapter.Execute.Started.{
  ↝*-IsStarted, finish-IsSound, record-IsSound, IsRecorded, IsSound, IsStarted, ◌↝*◌,
  record-IsRecorded,
}

-- The execution that a claim starts.
pub record IsRunning (intent : ExecutionIntent) (db : Executions) (i v : ℕ) : Type 0 where
  pub sound : IsSound db
  pub index : db.by_key intent.idempotency_key ≡ some i
  pub row : Execution
  pub here : db.rows i ≡ some row
  pub status : row.status ≡ ExecutionStatus.running
  pub version : row.version ≡ v
  pub first : v ≡ 2

abbrev starting : Host → World → ExecutionIntent → Executions → Execution → Move
starting host world intent db x = record {
  seen = db;
  execution_id = x.id;
  expected_version = x.version;
  status = ExecutionStatus.running;
  result = host.dump_intent intent;
  reason = none;
  now = world.clock 2;
}

becomes_running : (s : ExecutionStatus) → may_become s ExecutionStatus.running ≡ true → stamp s ≡ 1
unfolding may_become stamp
becomes_running s h = ground arith

module _ (host : Host) (world : World) (intent : ExecutionIntent) (t t' : Tables) (i v : ℕ)
    (sound : IsSound t.executions)
    (run : claim host world intent t ≡ returned (dispatching t' i v)) where
  c : IsClaimed host world intent t t' i v
  c = claim-dispatching host world intent t t' i v run

  table-IsSound : IsSound c.table
  table-IsSound =
      record-IsSound t.executions c.table world.step (request_of intent world.fresh) c.recorded
        sound c.recording

  recorded_row : IsRecorded t.executions c.table (request_of intent world.fresh) c.recorded
  recorded_row =
      record-IsRecorded t.executions c.table world.step (request_of intent world.fresh) c.recorded
        sound c.recording

  f :
      IsFinished c.table c.table t'.executions c.recorded.id c.recorded.version
        ExecutionStatus.running c.row
  f =
      finish-effect c.table c.table t'.executions c.recorded.id c.recorded.version
        ExecutionStatus.running (host.dump_intent intent) none (world.clock 2) c.row c.start

  -- The row that was moved was the recorded one, and new.
  was_first : c.recorded.version ≡ 1
  was_first =
      let from = table-IsSound.stamped c.recorded.id f.read f.was_read in
      omega (arith, from, becomes_running f.read.status f.edge, f.read_version)

  pub claim-IsRunning : IsRunning intent t'.executions i v
  unfolding request_of
  claim-IsRunning = record {
    sound =
        finish-IsSound (starting host world intent c.table c.recorded) c.table t'.executions c.row
          table-IsSound.stamped c.start table-IsSound;
    index = ap (λ k. k intent.idempotency_key) f.keys ∙ recorded_row.index ∙ ap some (sym c.number);
    row = c.row;
    here =
        ap t'.executions.rows c.number ∙ row-here t'.executions c.table c.recorded.id c.row f.rows;
    status = f.new_status;
    version = sym c.version;
    first = omega (arith, c.version, f.new_version, was_first);
  }

  pub claim-IsStarted : IsStarted intent.idempotency_key t'.executions
  claim-IsStarted =
      let r = claim-IsRunning in
      record {
        sound = r.sound;
        number = i;
        index = r.index;
        row = r.row;
        here = r.here;
        past = omega (arith, r.version, r.first);
      }

  -- What had started is not started again.
  pub claim-unstarted : IsStarted intent.idempotency_key t.executions → ⊥
  unfolding request_of row_of
  claim-unstarted s = elim recorded_row.wrote [
    | inr (row, unused, table) ↦ absurd (ground (arith, unused, s.index))
    | inl same ↦
        let index : t.executions.by_key intent.idempotency_key ≡ some c.recorded.id =
          subst (λ (d : Executions). d.by_key intent.idempotency_key ≡ some c.recorded.id) same
            recorded_row.index in
        let here : t.executions.rows c.recorded.id ≡ some c.recorded =
          subst (λ (d : Executions). d.rows c.recorded.id ≡ some c.recorded) same
            recorded_row.row in
        let number : s.number ≡ c.recorded.id = ground (arith, s.index, index) in
        let row : s.row ≡ c.recorded =
          ground (arith, sym s.here, ap t.executions.rows number, here) in
        omega (arith, s.past, ap (λ (z : Execution). z.version) row, was_first)
  ]

-- The tables that the claim of a call meets.
abbrev pub at_claim : World → Tables → Tables
at_claim world t = world.others 2 (world.others 0 t)

-- A call asks for a restart only after its claim, and then ends as its conclusion does.
pub record IsDispatched (host : Host) (world : World) (intent : ExecutionIntent) (t0 : Tables)
    : Type 0 where
  pub tables : Tables
  pub number : ℕ
  pub version : ℕ
  pub claimed :
      claim host world intent (at_claim world t0) ≡ returned (dispatching tables number version)
  pub ends :
      execute host world intent t0
      ≡ ended
          (world.others 3 tables)
          1
          (conclude host world intent number version (world.others 3 tables))

pub execute-cases :
    (host : Host) (world : World) (intent : ExecutionIntent) (t0 : Tables)
    → ((execute host world intent t0).restarts ≡ 0) ⊎ IsDispatched host world intent t0
unfolding execute claim_and_dispatch
execute-cases host world intent t0 =
    elim (Tried-cases (early_check host world intent (world.others 0 t0))) [
      | inl (e, bad) ↦ inl (ground (arith, bad))
      | inr (answered t' outcome, early) ↦ inl (ground (arith, early))
      | inr (not_started, early) ↦ elim (Option-cases world.pre_snapshot) [
        | inl unseen ↦ inl (ground (arith, early, unseen))
        | inr (snapshot, seen) ↦ elim (Tried-cases (claim host world intent (at_claim world t0))) [
          | inl (e, bad) ↦ inl (ground (arith, early, seen, bad))
          | inr (already t' outcome, done) ↦ inl (ground (arith, early, seen, done))
          | inr (dispatching t' i v, done) ↦ inr (record {
            tables = t';
            number = i;
            version = v;
            claimed = done;
            ends = ground (arith, early, seen, done);
          })
        ]
      ]
    ]

-- Where an execution was claimed in sound tables, and the tables went on to `b` by what any workers record
-- and finish, no later call under its key, whose claim meets `b`, asks Docker for a restart.
pub execute-once :
    (host : Host) (w1 w2 : World) (first second : ExecutionIntent) (t t' t0 : Tables) (i v : ℕ)
    → IsSound t.executions
    → claim host w1 first t ≡ returned (dispatching t' i v)
    → t'.executions ↝* (at_claim w2 t0).executions
    → second.idempotency_key ≡ first.idempotency_key
    → (execute host w2 second t0).restarts ≡ 0
execute-once host w1 w2 first second t t' t0 i v sound run path key =
    elim (execute-cases host w2 second t0) [
      | inl none_asked ↦ none_asked
      | inr d ↦
          let started =
            ↝*-IsStarted first.idempotency_key t'.executions (at_claim w2 t0).executions path
              (claim-IsStarted host w1 first t t' i v sound run) in
          absurd (
            claim-unstarted host w2 second (at_claim w2 t0) d.tables d.number d.version
              started.sound d.claimed
              (subst (λ k. IsStarted k (at_claim w2 t0).executions) (sym key) started))
    ]

-- What a call has before it asks Docker for a restart: automation is not disabled, and the resource neither
-- stopped nor quarantined; its lease is the only one that is accepted, for 120 seconds; and it has itself
-- moved the execution, which nobody had started, to RUNNING.
pub record IsGuarded (world : World) (intent : ExecutionIntent) (t t' : Tables) (number version : ℕ)
    : Type 0 where
  pub safe : check_safety world.control t.locks intent.resource_id ≡ none
  pub lease :
      (at : ℕ) (o : String) (u : ℕ)
      → (verify_lock o u at t'.locks intent.resource_id ≡ true)
        ↔ ((o ≡ world.actor) × (u ≡ world.token) × (at < world.clock 2 + 120))
  pub running : IsRunning intent t'.executions number version
  pub unstarted : IsStarted intent.idempotency_key t.executions → ⊥

ended-restarts :
    (t : Tables) (n : ℕ) (r : Tried (Tables × ExecutionOutcome)) → (ended t n r).restarts ≡ n
ended-restarts t n (returned (t', outcome)) = refl
ended-restarts t n (raised e) = refl

acquire-safe :
    (actor : String) (token seconds now : ℕ) (control : Option AutomationControl)
    (seen locks locks' : Locks) (i t : ℕ)
    → acquire_lock actor token seconds now control seen locks i ≡ (locks', granted t)
    → check_safety control seen i ≡ none
unfolding acquire_lock
acquire-safe actor token seconds now control seen locks locks' i t h =
    elim (Option-cases (check_safety control seen i)) [
      | inl safe ↦ safe
      | inr (e, bad) ↦ absurd (ground (arith, h, bad))
    ]

-- Where the tables that the claim of a call meets are sound, the call asks Docker for no restart, or for one,
-- and then its claim has committed tables in which it is guarded, and it ends by the conclusion of the dispatch
-- of the execution that the claim moved.
pub execute-IsGuarded :
    (host : Host) (world : World) (intent : ExecutionIntent) (t0 : Tables)
    → IsSound (at_claim world t0).executions
    → ((execute host world intent t0).restarts ≡ 0)
      ⊎ (((execute host world intent t0).restarts ≡ 1)
          × ((d : IsDispatched host world intent t0) × IsGuarded world intent
                (at_claim world t0)
                d.tables
                d.number
                d.version))
execute-IsGuarded host world intent t0 sound = elim (execute-cases host world intent t0) [
  | inl none_asked ↦ inl none_asked
  | inr d ↦
      let t = at_claim world t0 in
      let c = claim-dispatching host world intent t d.tables d.number d.version d.claimed in
      let (its, lease, others) =
        acquire-grants world.actor world.token 120 (world.clock 2) intent.resource_id world.control
          t.locks t.locks d.tables.locks c.token c.grant in
      inr (
        ap (λ (e : Ended). e.restarts) d.ends
            ∙ ended-restarts (world.others 3 d.tables) 1
                (conclude host world intent d.number d.version (world.others 3 d.tables)),
        (
          d,
          record {
            safe =
                acquire-safe world.actor world.token 120 (world.clock 2) world.control t.locks
                  t.locks d.tables.locks intent.resource_id c.token c.grant;
            lease = lease;
            running =
                claim-IsRunning host world intent t d.tables d.number d.version sound d.claimed;
            unstarted =
                claim-unstarted host world intent t d.tables d.number d.version sound d.claimed;
          },
        ),
      )
]
