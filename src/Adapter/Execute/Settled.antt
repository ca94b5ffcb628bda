-- ===== src/Adapter/Execute/Settled.antt =====
-- What a call leaves that has asked for a restart.
use self_healing_agent.Adapter.Execute.Once.{IsDispatched, execute-cases}
use self_healing_agent.Execution.Once.{row-here}
use self_healing_agent.Execution.Moves.{finish-effect}
use self_healing_agent.Lock.Laws.{no_verify, starts, IsQuarantined}
use self_healing_agent.Incident.Store.{ok}
use self_healing_agent.Adapter.Execute.{
  execute, dispatched_outcome, quarantine_reason, conclude, conclude_uncertain,
  finish_and_quarantine, finish_and_release,
}
use self_healing_agent.Adapter.World.{
  Tried, restarted, other_error, unreachable, timed_out, not_found, RestartAnswer, ◌>>=◌,
  from_repository, returned, from_release, Tables, World,
}
use self_healing_agent.Execution.Record.{finish_execution, Execution, ExecutionStatus, Executions}
use self_healing_agent.Lock.Service.{
  release_lock_between, quarantine_resource, put, LockError, holds, verify_lock, release_lock,
  Locks,
}
use self_healing_agent.Prelude.{
  ◌⊎◌, true, sym, subst, Bool-cases, ap, ◌∙◌, inr, inl, Option-cases, arith, false, String, Option,
  refl, none, ◌≡◌, ℕ, some,
}
use self_healing_agent.Adapter.Intent.{
  reconcile, ExecutionOutcome, ExecutionIntent, Host, ExecutionOutcomeStatus,
}
use self_healing_agent.Adapter.Execute.Claimed.{Tried-cases, bind-returned, repository-returned}

-- The status of the row that an outcome stands for.
unfoldable pub row_status : ExecutionOutcomeStatus → ExecutionStatus
row_status ExecutionOutcomeStatus.succeeded = ExecutionStatus.succeeded
row_status _ = ExecutionStatus.failed

-- The execution is the outcome's and finished as it says, nobody holds the resource, and it is quarantined where the
-- outcome is uncertain.
pub record IsSettled (intent : ExecutionIntent) (i : ℕ) (t' : Tables) (outcome : ExecutionOutcome)
    : Type 0 where
  pub row : Execution
  pub here : t'.executions.rows i ≡ some row
  pub status : row.status ≡ row_status outcome.status
  pub reported : outcome.execution_id ≡ some i
  pub free : (o : String) (u at : ℕ) → verify_lock o u at t'.locks intent.resource_id ≡ false
  pub marked :
      outcome.status ≡ ExecutionOutcomeStatus.uncertain → IsQuarantined t'.locks intent.resource_id

pub finish-row :
    (db db' : Executions) (i v : ℕ) (status : ExecutionStatus) (result : String)
    (reason : Option String) (now : ℕ) (y : Execution)
    → finish_execution db db i v status result reason now ≡ ok (db', y)
    → (db'.rows i ≡ some y) × (y.status ≡ status)
finish-row db db' i v status result reason now y h =
    let f = finish-effect db db db' i v status result reason now y h in
    (row-here db' db i y f.rows, f.new_status)

release-returned :
    (r : Locks × Option LockError) (locks : Locks)
    → from_release r ≡ returned locks
    → r ≡ (locks, none)
release-returned (l, none) locks h = ground (arith, h)
release-returned (l, some e) locks h = absurd (ground (arith, h))

-- After a release nobody holds the resource.
release-free :
    (actor : String) (token fresh now : ℕ) (locks locks' : Locks) (i : ℕ)
    → release_lock actor token fresh now locks i ≡ (locks', none)
    → (o : String) (u at : ℕ) → verify_lock o u at locks' i ≡ false
unfolding release_lock release_lock_between verify_lock holds put
release-free actor token fresh now locks locks' i h o u at = elim (Option-cases (locks i)) [
  | inl gone ↦ ground (arith, h, gone)
  | inr (lock, here) ↦ ground (arith, h, here)
]

pub restart-cases :
    (r : RestartAnswer)
    → (r ≡ not_found) ⊎ ((r ≡ timed_out) ⊎ (r ≡ unreachable) ⊎ (r ≡ other_error)) ⊎ (r ≡ restarted)
restart-cases r = ground arith

abbrev paired : ExecutionOutcome → Tables → Tried (Tables × ExecutionOutcome)
paired outcome t = returned (t, outcome)

abbrev answering : Tried Tables → ExecutionOutcome → Tried (Tables × ExecutionOutcome)
answering r outcome = r >>= paired outcome

module _ (host : Host) (world : World) (intent : ExecutionIntent) (i v : ℕ) (t : Tables) where
  record IsReleased (status : ExecutionStatus) (t' : Tables) : Type 0 where
    row : Execution
    here : t'.executions.rows i ≡ some row
    its_status : row.status ≡ status
    free : (o : String) (u at : ℕ) → verify_lock o u at t'.locks intent.resource_id ≡ false

  finish_and_release-returned :
      (status : ExecutionStatus) (result : String) (reason : Option String) (t' : Tables)
      → finish_and_release world intent i v status result reason t ≡ returned t'
      → IsReleased status t'
  unfolding finish_and_release
  finish_and_release-returned status result reason t' h =
      let (done, ran, later) =
        bind-returned
          (from_repository
            (finish_execution t.executions t.executions i v status result reason (world.clock 3)))
          (λ done.
            from_release (
              release_lock world.actor world.token world.fresh_token (world.clock 3) t.locks
                intent.resource_id)
            >>= λ locks. returned (record { executions = done.0; locks = locks }))
          t' h in
      let (locks, gave, last) =
        bind-returned
          (from_release (
            release_lock world.actor world.token world.fresh_token (world.clock 3) t.locks
              intent.resource_id))
          (λ locks. returned (record { executions = done.0; locks = locks })) t' later in
      let run =
        repository-returned
          (finish_execution t.executions t.executions i v status result reason (world.clock 3)) done
          ran in
      let (here, its) =
        finish-row t.executions done.0 i v status result reason (world.clock 3) done.1 run in
      let released =
        release-returned
          (release_lock world.actor world.token world.fresh_token (world.clock 3) t.locks
            intent.resource_id)
          locks gave in
      let table : t'.executions ≡ done.0 = ground (arith, last) in
      let lock : t'.locks ≡ locks = ground (arith, last) in
      record {
        row = done.1;
        here = ap (λ (d : Executions). d.rows i) table ∙ here;
        its_status = its;
        free = λ o u at.
            subst (λ (l : Locks). verify_lock o u at l intent.resource_id ≡ false) (sym lock)
              (release-free world.actor world.token world.fresh_token (world.clock 3) t.locks locks
                intent.resource_id released o u at);
      }

  finish_and_quarantine-returned :
      (reason : String) (t' : Tables)
      → finish_and_quarantine world intent i v reason t ≡ returned t'
      → (row : Execution) × (t'.executions.rows i ≡ some row)
        × (row.status ≡ ExecutionStatus.failed)
        × IsQuarantined t'.locks intent.resource_id
  unfolding finish_and_quarantine
  finish_and_quarantine-returned reason t' h =
      let (done, ran, last) =
        bind-returned
          (from_repository (
            finish_execution t.executions t.executions i v ExecutionStatus.failed "uncertain"
              (some reason) (world.clock 3)))
          (λ done. returned (record {
            executions = done.0;
            locks =
                quarantine_resource quarantine_reason world.fresh_token (world.clock 3) t.locks
                  intent.resource_id;
          }))
          t' h in
      let run =
        repository-returned
          (finish_execution t.executions t.executions i v ExecutionStatus.failed "uncertain"
            (some reason) (world.clock 3))
          done ran in
      let (here, its) =
        finish-row t.executions done.0 i v ExecutionStatus.failed "uncertain" (some reason)
          (world.clock 3) done.1 run in
      let table : t'.executions ≡ done.0 = ground (arith, last) in
      let lock : t'.locks
          ≡ quarantine_resource quarantine_reason world.fresh_token (world.clock 3) t.locks
              intent.resource_id =
        ground (arith, last) in
      (
        done.1,
        ap (λ (d : Executions). d.rows i) table ∙ here,
        its,
        subst (λ (l : Locks). IsQuarantined l intent.resource_id) (sym lock)
            (starts quarantine_reason world.fresh_token (world.clock 3) intent.resource_id t.locks),
      )

  release-IsSettled :
      (status : ExecutionStatus) (result : String) (reason : Option String)
      (outcome outcome' : ExecutionOutcome) (t' : Tables)
      → status ≡ row_status outcome.status
      → outcome.execution_id ≡ some i
      → (outcome.status ≡ ExecutionOutcomeStatus.uncertain → ⊥)
      → answering (finish_and_release world intent i v status result reason t) outcome
        ≡ returned (t', outcome')
      → IsSettled intent i t' outcome'
  release-IsSettled status result reason outcome outcome' t' e its_id n h =
      let (t2, ran, last) =
        bind-returned (finish_and_release world intent i v status result reason t) (paired outcome)
          (t', outcome') h in
      let same : t2 ≡ t' = ground (arith, last) in
      let its : outcome ≡ outcome' = ground (arith, last) in
      let r = finish_and_release-returned status result reason t2 ran in
      subst (λ z. IsSettled intent i z outcome') same
        (subst (λ z. IsSettled intent i t2 z) its
          (record {
            row = r.row;
            here = r.here;
            status = r.its_status ∙ e;
            reported = its_id;
            free = r.free;
            marked = λ u. absurd (n u);
          }))

  quarantine-IsSettled :
      (reason : String) (outcome outcome' : ExecutionOutcome) (t' : Tables)
      → ExecutionStatus.failed ≡ row_status outcome.status
      → outcome.execution_id ≡ some i
      → answering (finish_and_quarantine world intent i v reason t) outcome
        ≡ returned (t', outcome')
      → IsSettled intent i t' outcome'
  quarantine-IsSettled reason outcome outcome' t' e its_id h =
      let (t2, ran, last) =
        bind-returned (finish_and_quarantine world intent i v reason t) (paired outcome)
          (t', outcome') h in
      let same : t2 ≡ t' = ground (arith, last) in
      let its : outcome ≡ outcome' = ground (arith, last) in
      let (row, here, status, mark) = finish_and_quarantine-returned reason t2 ran in
      subst (λ z. IsSettled intent i z outcome') same
        (subst (λ z. IsSettled intent i t2 z) its
          (record {
            row = row;
            here = here;
            status = status ∙ e;
            reported = its_id;
            free = λ o u at. no_verify mark o u at;
            marked = λ u. mark;
          }))

  conclude_uncertain-IsSettled :
      (t' : Tables) (outcome : ExecutionOutcome)
      → conclude_uncertain host world intent i v t ≡ returned (t', outcome)
      → IsSettled intent i t' outcome
  unfolding conclude_uncertain row_status
  conclude_uncertain-IsSettled t' outcome h =
      let recon =
        reconcile host world.post_snapshot (some world.dispatch_time) world.pre_snapshot in
      elim (Bool-cases recon.reconciled_success) [
        | inl good ↦
            release-IsSettled ExecutionStatus.succeeded "reconciled" none
              (dispatched_outcome intent i ExecutionOutcomeStatus.succeeded true none none) outcome
              t' refl refl (λ u. ground (arith, u)) (ground (arith, h, good))
        | inr bad ↦
            quarantine-IsSettled recon.reason
              (dispatched_outcome intent i ExecutionOutcomeStatus.uncertain false
                (some recon.reason) (some recon.reason))
              outcome t' refl refl (ground (arith, h, bad))
      ]

  pub conclude-IsSettled :
      (t' : Tables) (outcome : ExecutionOutcome)
      → conclude host world intent i v t ≡ returned (t', outcome)
      → IsSettled intent i t' outcome
  unfolding conclude row_status
  conclude-IsSettled t' outcome h = elim (restart-cases world.restart) [
    | inl gone ↦
        release-IsSettled ExecutionStatus.failed "error" (some "Container disappeared")
          (dispatched_outcome intent i ExecutionOutcomeStatus.failed false none
            (some "Container disappeared"))
          outcome t' refl refl (λ u. ground (arith, u)) (ground (arith, h, gone))
    | inr (inl (inl e)) ↦ conclude_uncertain-IsSettled t' outcome (ground (arith, h, e))
    | inr (inl (inr (inl e))) ↦ conclude_uncertain-IsSettled t' outcome (ground (arith, h, e))
    | inr (inl (inr (inr e))) ↦ conclude_uncertain-IsSettled t' outcome (ground (arith, h, e))
    | inr (inr done) ↦ elim (Option-cases world.post_snapshot) [
      | inl unseen ↦ absurd (ground (arith, h, done, unseen))
      | inr (snapshot, seen) ↦
          release-IsSettled ExecutionStatus.succeeded (host.dump_snapshot snapshot) none
            (dispatched_outcome intent i ExecutionOutcomeStatus.succeeded false none none) outcome
            t' refl refl (λ u. ground (arith, u)) (ground (arith, h, done, seen))
    ]
  ]

-- Where a call has asked Docker for a restart and returns an outcome, the execution that its claim dispatched is the
-- one that the outcome names and is finished with the status that the outcome stands for, no owner and token is accepted for the resource any more, and
-- the resource is quarantined where the outcome is uncertain.
pub execute-settles :
    (host : Host) (world : World) (intent : ExecutionIntent) (t0 : Tables)
    (outcome : ExecutionOutcome)
    → (execute host world intent t0).restarts ≡ 1
    → (execute host world intent t0).answer ≡ returned outcome
    → (d : IsDispatched host world intent t0) × IsSettled intent d.number
        (execute host world intent t0).tables
        outcome
execute-settles host world intent t0 outcome asked answer =
    elim (execute-cases host world intent t0) [
      | inl none_asked ↦ absurd (ground (arith, asked, none_asked))
      | inr d ↦
          let t3 = world.others 3 d.tables in
          let r = conclude host world intent d.number d.version t3 in
          elim (Tried-cases r) [
            | inl (e, bad) ↦ absurd (ground (arith, answer, d.ends, bad))
            | inr ((t', o), good) ↦
                let same : o ≡ outcome = ground (arith, answer, d.ends, good) in
                let table : (execute host world intent t0).tables ≡ t' =
                  ground (arith, d.ends, good) in
                let settled =
                  conclude-IsSettled host world intent d.number d.version t3 t' o good in
                (
                  d,
                  subst (λ z. IsSettled intent d.number z outcome) (sym table)
                      (subst (λ z. IsSettled intent d.number t' z) same settled),
                )
          ]
    ]
