-- ===== src/Lock/Service.antt =====
-- `ResourceLockService`. Times are seconds; `datetime.now(UTC)` is the same clock as `now()`.
use self_healing_agent.Prelude.{
  ℕ, ◌+◌, ◌*◌, Bool, true, false, ◌&&◌, ◌||◌, not, List, Option, none, some, String, ◌==◌, leb, ltb,
  str_eq, if◌then◌else◌, any,
}

pub record ResourceLock : Type 0 where
  pub owner : String
  pub token : ℕ
  pub acquired_at : ℕ
  pub expires_at : ℕ
  pub quarantined : Bool
  pub quarantine_reason : Option String
  pub quarantined_at : Option ℕ

pub data AutomationMode : Type 0 where
  enabled disabled : AutomationMode

-- `mode` is compared with "DISABLED" only.
pub record AutomationControl : Type 0 where
  pub mode : AutomationMode
  pub emergency_stopped_resources : List ℕ

abbrev pub Locks : Type 0
Locks = ℕ → Option ResourceLock

unfoldable pub put : ℕ → Option ResourceLock → Locks → Locks
put i row locks j = if j == i then row else locks j

pub data LockError : Type 0 where
  bad_duration resource_locked quarantined_resource lock_ownership stale_data : LockError

pub data Answer : Type 0 where
  granted : ℕ → Answer
  refused : LockError → Answer

unfoldable pub is_disabled : AutomationMode → Bool
is_disabled disabled = true
is_disabled enabled = false

-- `check_safety`: the error that it raises.
unfoldable pub check_safety : Option AutomationControl → Locks → ℕ → Option LockError
check_safety control seen resource_id =
    let row : Option LockError = elim (seen resource_id) [
      | none ↦ none
      | some lock ↦ if lock.quarantined then some quarantined_resource else none
    ] in
    elim control [
      | none ↦ row
      | some c ↦
          if is_disabled c.mode
          then some quarantined_resource
          else if any (λ r. r == resource_id) c.emergency_stopped_resources
          then some quarantined_resource
          else row
    ]

-- The row that is inserted.
unfoldable pub new_lock : String → ℕ → ℕ → ℕ → ResourceLock
new_lock actor token seconds now = record {
  owner = actor;
  token = token;
  acquired_at = now;
  expires_at = now + seconds;
  quarantined = false;
  quarantine_reason = none;
  quarantined_at = none;
}

-- The `where` of the upsert: not quarantined, and expired or the caller's own.
unfoldable pub is_free_for : String → ℕ → ResourceLock → Bool
is_free_for actor now lock =
    not lock.quarantined && (leb lock.expires_at now || str_eq lock.owner actor)

-- `stmt.on_conflict_do_update(…)`: the new row of the table, where one is written.
unfoldable pub upsert : String → ℕ → ℕ → ℕ → Option ResourceLock → Option ResourceLock
upsert actor token seconds now none = some (new_lock actor token seconds now)
upsert actor token seconds now (some lock) =
    if is_free_for actor now lock
    then some (record lock {
      owner = actor;
      token = token;
      acquired_at = now;
      expires_at = now + seconds;
    })
    else none

-- Which error a refused upsert raises.
unfoldable pub refusal : Option ResourceLock → LockError
refusal none = resource_locked
refusal (some lock) = if lock.quarantined then quarantined_resource else resource_locked

-- `acquire_lock`: the safety check reads `seen`, the upsert writes `locks`.
unfoldable pub acquire_lock :
    String → ℕ → ℕ → ℕ → Option AutomationControl → Locks → Locks → ℕ → Locks × Answer
acquire_lock actor token seconds now control seen locks resource_id =
    if not (leb 1 seconds && leb seconds 3600)
    then (locks, refused bad_duration)
    else elim (check_safety control seen resource_id) [
      | some e ↦ (locks, refused e)
      | none ↦ elim (upsert actor token seconds now (locks resource_id)) [
        | some row ↦ (put resource_id (some row) locks, granted token)
        | none ↦ (locks, refused (refusal (locks resource_id)))
      ]
    ]

-- `verify_lock`
unfoldable pub holds : String → ℕ → ℕ → ResourceLock → Bool
holds actor token now lock =
    if not (lock.token == token)
    then false
    else if not (str_eq lock.owner actor)
    then false
    else if leb lock.expires_at now
    then false
    else if lock.quarantined
    then false
    else true

unfoldable pub verify_lock : String → ℕ → ℕ → Locks → ℕ → Bool
verify_lock actor token now locks resource_id = elim (locks resource_id) [
  | none ↦ false
  | some lock ↦ holds actor token now lock
]

-- `renew_lock`
unfoldable pub may_renew : String → ℕ → ℕ → ResourceLock → Bool
may_renew actor token now lock =
    lock.token == token
    && str_eq lock.owner actor
    && ltb now lock.expires_at
    && not lock.quarantined

unfoldable pub renew_lock : String → ℕ → ℕ → ℕ → Locks → ℕ → Locks × Bool
renew_lock actor token seconds now locks resource_id = elim (locks resource_id) [
  | none ↦ (locks, false)
  | some lock ↦
      if may_renew actor token now lock
      then (put resource_id (some (record lock { expires_at = now + seconds })) locks, true)
      else (locks, false)
]

abbrev pub system_quarantine : String
system_quarantine = "system:quarantine"

-- `timedelta(days=365)`
abbrev pub one_year : ℕ
one_year = 365 * 86400

-- `release_lock`: the error that it raises, if any. The row is read from `seen`, and the row of its key is
-- then updated or deleted in `locks`, whatever it has become; an update that meets no row raises StaleDataError, a
-- deletion does not. `fresh` is the token of a quarantined row.
unfoldable pub release_lock_between :
    String → ℕ → ℕ → ℕ → Locks → Locks → ℕ → Locks × Option LockError
release_lock_between actor token fresh now seen locks resource_id = elim (seen resource_id) [
  | none ↦ (locks, none)
  | some lock ↦
      if not (lock.token == token) || not (str_eq lock.owner actor)
      then (locks, some lock_ownership)
      else if lock.quarantined
      then elim (locks resource_id) [
        | none ↦ (locks, some stale_data)
        | some row ↦ (
          put resource_id
              (some (record row {
                token = fresh;
                owner = system_quarantine;
                expires_at = now + one_year;
              }))
              locks,
          none,
        )
      ]
      else (put resource_id none locks, none)
]

-- Undisturbed.
unfoldable pub release_lock : String → ℕ → ℕ → ℕ → Locks → ℕ → Locks × Option LockError
release_lock actor token fresh now locks = release_lock_between actor token fresh now locks locks

-- `quarantine_resource`
unfoldable pub quarantined_row : String → ℕ → ℕ → Option ResourceLock → ResourceLock
quarantined_row reason fresh now none = record {
  owner = system_quarantine;
  token = fresh;
  acquired_at = now;
  expires_at = now + one_year;
  quarantined = true;
  quarantine_reason = some reason;
  quarantined_at = some now;
}
quarantined_row reason fresh now (some lock) = record lock {
  owner = system_quarantine;
  quarantined = true;
  quarantine_reason = some reason;
  quarantined_at = some now;
  expires_at = now + one_year;
}

unfoldable pub quarantine_resource : String → ℕ → ℕ → Locks → ℕ → Locks
quarantine_resource reason fresh now locks resource_id =
    put resource_id (some (quarantined_row reason fresh now (locks resource_id))) locks

-- `clear_quarantine`, which reads `seen` and deletes by the key as well.
unfoldable pub clear_quarantine : Locks → Locks → ℕ → Locks
clear_quarantine seen locks resource_id = elim (seen resource_id) [
  | none ↦ locks
  | some lock ↦ if lock.quarantined then put resource_id none locks else locks
]
