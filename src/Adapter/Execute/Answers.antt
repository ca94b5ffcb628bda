-- ===== src/Adapter/Execute/Answers.antt =====
-- Calls that are sure to answer: a dispatch that still holds its lease, and the recovery of a RUNNING
-- execution.
use self_healing_agent.Adapter.Execute.Settled.{finish-row, restart-cases}
use self_healing_agent.Adapter.Execute.{
  crash_reason, answered, ExecutionOutcomeStatus, dispatched_outcome, seen_running, recovered,
  request_of, find_execution, recover, settle_existing, early_check, execute, quarantine_reason,
  conclude_uncertain, finish_and_release, finish_and_quarantine, conclude,
}
use self_healing_agent.Adapter.World.{Ended, restarted, returned, Tables, World}
use self_healing_agent.Adapter.Intent.{
  ContainerSnapshot, reconcile, ExecutionOutcome, ExecutionIntent, Host,
}
use self_healing_agent.Incident.Store.{ok}
use self_healing_agent.Lock.Service.{
  release_lock_between, quarantine_resource, put, Locks, holds, verify_lock, release_lock,
}
use self_healing_agent.Execution.Record.{
  same_execution, put_row, finish_changes, commit_finish, may_become, Execution, refusal,
  finish_execution, ExecutionStatus, Executions,
}
use self_healing_agent.Prelude.{
  str_eq→eq, eq→str_eq, ◌∙◌, ap, Option-cases, false, inr, inl, if◌then◌else◌, Bool-cases, refl,
  ◌≢◌, arith, Option, String, true, none, ◌≡◌, ℕ, some,
}

-- The execution is RUNNING, at the version.
pub record IsOpen (db : Executions) (i v : ℕ) : Type 0 where
  pub row : Execution
  pub here : db.rows i ≡ some row
  pub version : row.version ≡ v
  pub status : row.status ≡ ExecutionStatus.running

MayFinish : ExecutionStatus → Type 0
MayFinish s = may_become ExecutionStatus.running s ≡ true

finish-open :
    (db : Executions) (i v : ℕ) (status : ExecutionStatus) (result : String)
    (reason : Option String) (now : ℕ)
    → IsOpen db i v
    → MayFinish status
    → (db' : Executions) × (y : Execution) × (finish_execution db db i v status result reason now
        ≡ ok (db', y))
unfolding finish_execution refusal commit_finish MayFinish
finish-open db i v status result reason now o m =
    let y = finish_changes v status result reason now o.row in
    (record db { rows = put_row i y db.rows }, y, ground (arith, o.here, o.version, o.status, m))

release-held :
    (actor : String) (token fresh now : ℕ) (locks : Locks) (i : ℕ)
    → verify_lock actor token now locks i ≡ true
    → (locks' : Locks) × (release_lock actor token fresh now locks i ≡ (locks', none))
unfolding release_lock release_lock_between verify_lock holds
release-held actor token fresh now locks i h = (put i none locks, ground (arith, h))

module _ (host : Host) (world : World) (intent : ExecutionIntent) (i v : ℕ) (t : Tables)
    (o : IsOpen t.executions i v) where
  released :
      (status : ExecutionStatus) (result : String) (reason : Option String)
      → MayFinish status
      → verify_lock world.actor world.token (world.clock 3) t.locks intent.resource_id ≡ true
      → (t' : Tables) × (finish_and_release world intent i v status result reason t ≡ returned t')
  unfolding finish_and_release
  released status result reason m held =
      let (db', y, run) = finish-open t.executions i v status result reason (world.clock 3) o m in
      let (locks', gone) =
        release-held world.actor world.token world.fresh_token (world.clock 3) t.locks
          intent.resource_id held in
      (record { executions = db'; locks = locks' }, ground (arith, run, gone))

  quarantined :
      (reason : String)
      → (t' : Tables) × (finish_and_quarantine world intent i v reason t ≡ returned t')
  unfolding finish_and_quarantine MayFinish may_become
  quarantined reason =
      let (db', y, run) =
        finish-open t.executions i v ExecutionStatus.failed "uncertain" (some reason)
          (world.clock 3) o refl in
      (
        record {
          executions = db';
          locks =
              quarantine_resource quarantine_reason world.fresh_token (world.clock 3) t.locks
                intent.resource_id;
        },
        ground (arith, run),
      )

  unclear :
      verify_lock world.actor world.token (world.clock 3) t.locks intent.resource_id ≡ true
      → (r : Tables × ExecutionOutcome) × (conclude_uncertain host world intent i v t ≡ returned r)
  unfolding conclude_uncertain MayFinish may_become
  unclear held =
      let recon =
        reconcile host world.post_snapshot (some world.dispatch_time) world.pre_snapshot in
      elim (Bool-cases recon.reconciled_success) [
        | inl good ↦
            let (t', run) = released ExecutionStatus.succeeded "reconciled" none refl held in
            (
              (t', dispatched_outcome intent i ExecutionOutcomeStatus.succeeded true none none),
              ground (arith, good, run),
            )
        | inr bad ↦
            let (t', run) = quarantined recon.reason in
            (
              (
                t',
                dispatched_outcome intent i ExecutionOutcomeStatus.uncertain false
                    (some recon.reason) (some recon.reason),
              ),
              ground (arith, bad, run),
            )
      ]

  -- A dispatch whose execution is still RUNNING and whose lease is still its own returns an outcome, whatever
  -- Docker answers to the restart, where it can be looked at after a restart that succeeds.
  pub conclude-returns :
      verify_lock world.actor world.token (world.clock 3) t.locks intent.resource_id ≡ true
      → (world.restart ≡ restarted → world.post_snapshot ≢ none)
      → (r : Tables × ExecutionOutcome) × (conclude host world intent i v t ≡ returned r)
  unfolding conclude MayFinish may_become
  conclude-returns held visible = elim (restart-cases world.restart) [
    | inl gone ↦
        let (t', run) =
          released ExecutionStatus.failed "error" (some "Container disappeared") refl held in
        (
          (
            t',
            dispatched_outcome intent i ExecutionOutcomeStatus.failed false none
                (some "Container disappeared"),
          ),
          ground (arith, gone, run),
        )
    | inr (inl (inl e)) ↦ let (r, run) = unclear held in (r, ground (arith, e, run))
    | inr (inl (inr (inl e))) ↦ let (r, run) = unclear held in (r, ground (arith, e, run))
    | inr (inl (inr (inr e))) ↦ let (r, run) = unclear held in (r, ground (arith, e, run))
    | inr (inr done) ↦ elim (Option-cases world.post_snapshot) [
      | inl unseen ↦ absurd (visible done unseen)
      | inr (snapshot, seen) ↦
          let (t', run) =
            released ExecutionStatus.succeeded (host.dump_snapshot snapshot) none refl held in
          (
            (t', dispatched_outcome intent i ExecutionOutcomeStatus.succeeded false none none),
            ground (arith, done, seen, run),
          )
    ]
  ]

recovery_status : ContainerSnapshot → ExecutionStatus
recovery_status snapshot =
    if seen_running snapshot then ExecutionStatus.succeeded else ExecutionStatus.failed

recovery-MayFinish : (snapshot : ContainerSnapshot) → MayFinish (recovery_status snapshot)
unfolding recovery_status MayFinish may_become
recovery-MayFinish snapshot = ground arith

recover-open :
    (host : Host) (world : World) (intent : ExecutionIntent) (x : Execution) (now : ℕ)
    (db : Executions) (snapshot : ContainerSnapshot)
    → IsOpen db x.id x.version
    → world.post_snapshot ≡ some snapshot
    → (db' : Executions) × (recover host world intent x now db
        ≡ returned (db', recovered intent x snapshot))
      × ((y : Execution) × (db'.rows x.id ≡ some y) × (y.status ≡ recovery_status snapshot))
unfolding recover recovery_status
recover-open host world intent x now db snapshot o seen =
    let (db', y, run) =
      finish-open db x.id x.version (recovery_status snapshot) (host.dump_snapshot snapshot)
        (if seen_running snapshot then none else some crash_reason) now o
        (recovery-MayFinish snapshot) in
    let (here, its) =
      finish-row db db' x.id x.version (recovery_status snapshot) (host.dump_snapshot snapshot)
        (if seen_running snapshot then none else some crash_reason) now y run in
    (db', ground (arith, seen, run), (y, here, its))

recovering :
    (host : Host) (world : World) (intent : ExecutionIntent) (t0 : Tables) (x : Execution)
    (db' : Executions) (outcome : ExecutionOutcome)
    → find_execution intent.idempotency_key (world.others 0 t0).executions ≡ some x
    → x.status ≡ ExecutionStatus.running
    → same_execution x (request_of intent world.fresh) ≡ true
    → recover host world intent x (world.clock 1) (world.others 1 (world.others 0 t0)).executions
      ≡ returned (db', outcome)
    → execute host world intent t0 ≡ record {
      tables = record (world.others 1 (world.others 0 t0)) { executions = db' };
      restarts = 0;
      answer = returned outcome;
    }
unfolding execute early_check settle_existing
recovering host world intent t0 x db' outcome found status its run =
    let settled : settle_existing host world intent (world.others 0 t0) x
        ≡ returned
            (answered (record (world.others 1 (world.others 0 t0)) { executions = db' }) outcome) =
      ground (arith, status, run) in
    ground (arith, found, its, settled)

recovered-running :
    (intent : ExecutionIntent) (x : Execution) (snapshot : ContainerSnapshot)
    → snapshot.status ≡ "running"
    → (recovered intent x snapshot).status ≡ ExecutionOutcomeStatus.succeeded
unfolding recovered seen_running
recovered-running intent x snapshot e =
    let seen = eq→str_eq snapshot.status "running" e in ground (arith, seen)

recovered-stopped :
    (intent : ExecutionIntent) (x : Execution) (snapshot : ContainerSnapshot)
    → snapshot.status ≢ "running"
    → (recovered intent x snapshot).status ≡ ExecutionOutcomeStatus.uncertain
unfolding recovered seen_running
recovered-stopped intent x snapshot n = elim (Bool-cases (seen_running snapshot)) [
  | inl seen ↦ absurd (n (str_eq→eq snapshot.status "running" seen))
  | inr other ↦ ground (arith, other)
]

recovery_status-running :
    (snapshot : ContainerSnapshot)
    → snapshot.status ≡ "running"
    → recovery_status snapshot ≡ ExecutionStatus.succeeded
unfolding recovery_status seen_running
recovery_status-running snapshot e =
    let seen = eq→str_eq snapshot.status "running" e in ground (arith, seen)

recovery_status-stopped :
    (snapshot : ContainerSnapshot)
    → snapshot.status ≢ "running"
    → recovery_status snapshot ≡ ExecutionStatus.failed
unfolding recovery_status seen_running
recovery_status-stopped snapshot n = elim (Bool-cases (seen_running snapshot)) [
  | inl seen ↦ absurd (n (str_eq→eq snapshot.status "running" seen))
  | inr other ↦ ground (arith, other)
]

recovered-names :
    (intent : ExecutionIntent) (x : Execution) (snapshot : ContainerSnapshot)
    → (recovered intent x snapshot).execution_id ≡ some x.id
unfolding recovered
recovered-names intent x snapshot = refl

-- Where the execution under the key is this one and RUNNING, still is when the call finishes it, and the
-- container can be looked at, the call asks Docker for no restart and changes no lock. It returns an outcome
-- for this execution: SUCCEEDED where the container's status is "running", and the row has SUCCEEDED;
-- UNCERTAIN where it is another, and the row has FAILED.
pub execute-recovers :
    (host : Host) (world : World) (intent : ExecutionIntent) (t0 : Tables) (x : Execution)
    (snapshot : ContainerSnapshot)
    → find_execution intent.idempotency_key (world.others 0 t0).executions ≡ some x
    → x.status ≡ ExecutionStatus.running
    → same_execution x (request_of intent world.fresh) ≡ true
    → IsOpen (world.others 1 (world.others 0 t0)).executions x.id x.version
    → world.post_snapshot ≡ some snapshot
    → let e = execute host world intent t0 in
      (e.restarts ≡ 0)
      × ((outcome : ExecutionOutcome) × (y : Execution) × (e.answer ≡ returned outcome)
          × (outcome.execution_id ≡ some x.id)
          × (e.tables.executions.rows x.id ≡ some y)
          × (snapshot.status ≡ "running"
              → (outcome.status ≡ ExecutionOutcomeStatus.succeeded)
                × (y.status ≡ ExecutionStatus.succeeded))
          × (snapshot.status ≢ "running"
              → (outcome.status ≡ ExecutionOutcomeStatus.uncertain)
                × (y.status ≡ ExecutionStatus.failed)))
      × (e.tables.locks ≡ (world.others 1 (world.others 0 t0)).locks)
execute-recovers host world intent t0 x snapshot found status its o seen =
    let t1 = world.others 1 (world.others 0 t0) in
    let (db', run, (y, here, finished)) =
      recover-open host world intent x (world.clock 1) t1.executions snapshot o seen in
    let all =
      recovering host world intent t0 x db' (recovered intent x snapshot) found status its run in
    (
      ap (λ (e : Ended). e.restarts) all,
      (
        recovered intent x snapshot,
        y,
        ap (λ (e : Ended). e.answer) all,
        recovered-names intent x snapshot,
        ap (λ (e : Ended). e.tables.executions.rows x.id) all ∙ here,
        (λ r.
            (recovered-running intent x snapshot r, finished ∙ recovery_status-running snapshot r)),
        λ n. (recovered-stopped intent x snapshot n, finished ∙ recovery_status-stopped snapshot n),
      ),
      ap (λ (e : Ended). e.tables.locks) all,
    )
