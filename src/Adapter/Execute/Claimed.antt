-- ===== src/Adapter/Execute/Claimed.antt =====
-- The claiming transaction, taken apart.
use self_healing_agent.Execution.Record.{
  ExecutionStatus, finish_execution, record_execution, Execution, Executions,
}
use self_healing_agent.Lock.Service.{granted, acquire_lock, Locks}
use self_healing_agent.Incident.Store.{ok, Result}
use self_healing_agent.Adapter.Intent.{ExecutionOutcome, ExecutionIntent, Host}
use self_healing_agent.Prelude.{arith, inr, inl, ◌⊎◌, refl, none, ◌≡◌, ℕ}
use self_healing_agent.Adapter.Execute.{
  recover, refused, LockAnswer, err, dispatching, already, claim, start_recorded, request_of,
}
use self_healing_agent.Adapter.World.{
  from_acquire, ◌>>=◌, from_repository, Raised, Tables, World, Tried, returned, raised,
}

pub Tried-cases {ℓ} :
    {A : Type ℓ} (r : Tried A) → ((e : Raised) × (r ≡ raised e)) ⊎ ((a : A) × (r ≡ returned a))
Tried-cases (raised e) = inl (e, refl)
Tried-cases (returned a) = inr (a, refl)

-- A chain that returns has returned at each link.
pub bind-returned {ℓ κ} :
    {A : Type ℓ} {B : Type κ} (r : Tried A) (f : A → Tried B) (b : B)
    → (r >>= f) ≡ returned b
    → (a : A) × (r ≡ returned a) × (f a ≡ returned b)
bind-returned (returned a) f b h = (a, refl, h)
bind-returned (raised e) f b h = absurd (ground (arith, h))

acquire-returned :
    (r : Locks × LockAnswer) (locks : Locks)
    → from_acquire r ≡ returned locks
    → (token : ℕ) × (r ≡ (locks, granted token))
acquire-returned (l, granted token) locks h = (token, ground (arith, h))
acquire-returned (l, refused e) locks h = absurd (ground (arith, h))

pub repository-returned {ℓ} :
    {A : Type ℓ} (r : Result A) (a : A) → from_repository r ≡ returned a → r ≡ ok a
repository-returned (ok b) a h = ground (arith, h)
repository-returned (err e) a h = absurd (ground (arith, h))

-- A claim that leads to a dispatch: the lock was granted, the request recorded, and the execution moved to
-- RUNNING, in one transaction.
pub record IsClaimed (host : Host) (world : World) (intent : ExecutionIntent) (t t' : Tables)
    (i v : ℕ) : Type 0 where
  pub token : ℕ
  pub grant :
      acquire_lock world.actor world.token 120
        (world.clock 2)
        world.control
        t.locks
        t.locks
        intent.resource_id
      ≡ (t'.locks, granted token)
  pub table : Executions
  pub recorded : Execution
  pub recording :
      record_execution t.executions world.step (request_of intent world.fresh)
      ≡ ok (table, recorded)
  pub number : i ≡ recorded.id
  pub row : Execution
  pub start :
      finish_execution table table recorded.id recorded.version ExecutionStatus.running
        (host.dump_intent intent)
        none
        (world.clock 2)
      ≡ ok (t'.executions, row)
  pub version : v ≡ row.version

record IsStartedRow (host : Host) (world : World) (intent : ExecutionIntent) (locks : Locks)
    (db : Executions) (x : Execution) (t' : Tables) (i v : ℕ) : Type 0 where
  row : Execution
  start :
      finish_execution db db x.id x.version ExecutionStatus.running
        (host.dump_intent intent)
        none
        (world.clock 2)
      ≡ ok (t'.executions, row)
  number : i ≡ x.id
  version : v ≡ row.version
  same_locks : t'.locks ≡ locks

recover-already :
    (host : Host) (world : World) (intent : ExecutionIntent) (locks : Locks) (t' : Tables) (i v : ℕ)
    (r : Tried (Executions × ExecutionOutcome))
    → (r >>= λ done. returned (already (record { executions = done.0; locks = locks }) done.1))
      ≡ returned (dispatching t' i v)
    → ⊥
recover-already host world intent locks t' i v (raised e) h = ground (arith, h)
recover-already host world intent locks t' i v (returned (a, b)) h = ground (arith, h)

begun :
    (host : Host) (world : World) (intent : ExecutionIntent) (locks : Locks) (db : Executions)
    (x : Execution) (t' : Tables) (i v : ℕ)
    → (from_repository (
          finish_execution db db x.id x.version ExecutionStatus.running
            (host.dump_intent intent)
            none
            (world.clock 2))
        >>= λ done.
            returned
              (dispatching (record { executions = done.0; locks = locks }) x.id (done.1).version))
      ≡ returned (dispatching t' i v)
    → IsStartedRow host world intent locks db x t' i v
begun host world intent locks db x t' i v h =
    let (done, ran, last) =
      bind-returned
        (from_repository (
          finish_execution db db x.id x.version ExecutionStatus.running (host.dump_intent intent)
            none (world.clock 2)))
        (λ done.
          returned
            (dispatching (record { executions = done.0; locks = locks }) x.id (done.1).version))
        (dispatching t' i v) h in
    let run =
      repository-returned
        (finish_execution db db x.id x.version ExecutionStatus.running (host.dump_intent intent)
          none (world.clock 2))
        done ran in
    record {
      row = done.1;
      start = ground (arith, run, last);
      number = ground (arith, last);
      version = ground (arith, last);
      same_locks = ground (arith, last);
    }

status-cases :
    (s : ExecutionStatus)
    → (s ≡ ExecutionStatus.pending)
      ⊎ (s ≡ ExecutionStatus.rolledback)
      ⊎ (s ≡ ExecutionStatus.succeeded)
      ⊎ (s ≡ ExecutionStatus.failed)
      ⊎ (s ≡ ExecutionStatus.running)
status-cases s = ground arith

start-dispatching :
    (host : Host) (world : World) (intent : ExecutionIntent) (locks : Locks) (db : Executions)
    (x : Execution) (t' : Tables) (i v : ℕ)
    → start_recorded host world intent locks db x ≡ returned (dispatching t' i v)
    → IsStartedRow host world intent locks db x t' i v
unfolding start_recorded
start-dispatching host world intent locks db x t' i v h = elim (status-cases x.status) [
  | inl e ↦ begun host world intent locks db x t' i v (ground (arith, h, e))
  | inr (inl e) ↦ begun host world intent locks db x t' i v (ground (arith, h, e))
  | inr (inr (inl e)) ↦ absurd (ground (arith, h, e))
  | inr (inr (inr (inl e))) ↦ absurd (ground (arith, h, e))
  | inr (inr (inr (inr e))) ↦ absurd (
      recover-already host world intent locks t' i v
        (recover host world intent x (world.clock 2) db) (ground (arith, h, e)))
]

pub claim-dispatching :
    (host : Host) (world : World) (intent : ExecutionIntent) (t t' : Tables) (i v : ℕ)
    → claim host world intent t ≡ returned (dispatching t' i v)
    → IsClaimed host world intent t t' i v
unfolding claim
claim-dispatching host world intent t t' i v h =
    let (locks, got, later) =
      bind-returned
        (from_acquire (
          acquire_lock world.actor world.token 120 (world.clock 2) world.control t.locks t.locks
            intent.resource_id))
        (λ locks.
          from_repository (record_execution t.executions world.step (request_of intent world.fresh))
          >>= λ recorded. start_recorded host world intent locks recorded.0 recorded.1)
        (dispatching t' i v) h in
    let (recorded, wrote, last) =
      bind-returned
        (from_repository (record_execution t.executions world.step (request_of intent world.fresh)))
        (λ recorded. start_recorded host world intent locks recorded.0 recorded.1)
        (dispatching t' i v) later in
    let (token, grant) =
      acquire-returned
        (acquire_lock world.actor world.token 120 (world.clock 2) world.control t.locks t.locks
          intent.resource_id)
        locks got in
    let s = start-dispatching host world intent locks recorded.0 recorded.1 t' i v last in
    record {
      token = token;
      grant = rw s.same_locks grant;
      table = recorded.0;
      recorded = recorded.1;
      recording =
          repository-returned
            (record_execution t.executions world.step (request_of intent world.fresh)) recorded
            wrote;
      number = s.number;
      row = s.row;
      start = s.start;
      version = s.version;
    }
