-- ===== src/Adapter/World.antt =====
-- What a call of the Docker adapter runs in and what it raises.
use self_healing_agent.Prelude.{none, Option, some, String, ℕ}
use self_healing_agent.Adapter.Intent.{ContainerSnapshot, ExecutionOutcome}
use self_healing_agent.Execution.Record.{Executions, RemediationStep}
use self_healing_agent.Incident.Store.{err, Failure, ok, Result}
use self_healing_agent.Lock.Service.{
  Answer as LockAnswer, AutomationControl, granted, LockError, Locks, refused,
}

pub record Tables : Type 0 where
  pub executions : Executions
  pub locks : Locks

-- What `restart_container` does: it returns, or raises DockerTimeoutError, DockerDaemonUnreachableError,
-- ContainerNotFoundError or another exception.
pub data RestartAnswer : Type 0 where
  restarted timed_out unreachable not_found other_error : RestartAnswer

-- What one call meets: Docker's snapshots before and after (`none` where `take_snapshot` raises) and its
-- answer to the restart; the control row and the plan's step; fresh UUIDs; the clock at each transaction
-- and at the dispatch; and what other workers commit before each transaction.
pub record World : Type 0 where
  pub pre_snapshot : Option ContainerSnapshot
  pub post_snapshot : Option ContainerSnapshot
  pub restart : RestartAnswer
  pub control : Option AutomationControl
  pub step : Option RemediationStep
  pub actor : String
  pub token : ℕ
  pub fresh : ℕ
  pub fresh_token : ℕ
  pub clock : ℕ → ℕ
  pub dispatch_time : ℕ
  pub others : ℕ → Tables → Tables

-- The exceptions that leave `execute`.
pub data Raised : Type 0 where
  repository : Failure → Raised
  lock_service : LockError → Raised
  docker_error : Raised

-- What a piece of code that may raise gives.
pub data Tried {ℓ} (A : Type ℓ) : Type ℓ where
  returned : A → Tried A
  raised : Raised → Tried A

infixl 5 ◌>>=◌
abbrev pub ◌>>=◌ {ℓ κ} : {A : Type ℓ} {B : Type κ} → Tried A → (A → Tried B) → Tried B
returned a >>= f = f a
raised e >>= f = raised e

-- Calls of the repository, of the lock service and of Docker.
abbrev pub from_repository {ℓ} : {A : Type ℓ} → Result A → Tried A
from_repository (ok a) = returned a
from_repository (err e) = raised (repository e)

abbrev pub from_acquire : Locks × LockAnswer → Tried Locks
from_acquire (locks, granted token) = returned locks
from_acquire (locks, refused e) = raised (lock_service e)

abbrev pub from_release : Locks × Option LockError → Tried Locks
from_release (locks, none) = returned locks
from_release (locks, some e) = raised (lock_service e)

abbrev pub from_docker {ℓ} : {A : Type ℓ} → Option A → Tried A
from_docker (some a) = returned a
from_docker none = raised docker_error

-- How a call ends: the tables, the number of restarts that were asked of Docker, and the answer.
pub record Ended : Type 0 where
  pub tables : Tables
  pub restarts : ℕ
  pub answer : Tried ExecutionOutcome
