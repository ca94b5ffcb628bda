-- ===== src/Lock/Tests.antt =====
-- Two workers and one resource.
use self_healing_agent.Lock.Sequences.{
  done, step, Along, quarantine-lasts, lease-kept, Uncleared, Harmless,
}
use self_healing_agent.Prelude.{[], ◌∷◌, arith, false, some, refl, true, none, List, ◌≡◌}
use self_healing_agent.Lock.Service.{
  quarantined_row, refused, LockError, granted, is_free_for, renew_lock, upsert,
  quarantine_resource, new_lock, put, holds, check_safety, ResourceLock, verify_lock, acquire_lock,
  Locks,
}
use self_healing_agent.Lock.Laws.{
  perform, IsCurrent, release, acquire, Event, is_clear, run, is_foreign,
}

abbrev no_locks : Locks
no_locks i = none

abbrev held_row : ResourceLock
held_row = new_lock "worker:a" 11 120 1000

unfoldable held : Locks
held = put 5 (some held_row) no_locks

holds_now : verify_lock "worker:a" 11 1000 held 5 ≡ true
unfolding verify_lock holds held put new_lock
holds_now = refl

holds_later : verify_lock "worker:a" 11 1100 held 5 ≡ true
unfolding verify_lock holds held put new_lock
holds_later = refl

granted_run : acquire_lock "worker:a" 11 120 1000 none no_locks no_locks 5 ≡ (held, granted 11)
unfolding acquire_lock check_safety upsert held
granted_run = refl

again_run :
    acquire_lock "worker:a" 12 60 1000 none no_locks held 5
    ≡ (put 5 (some (new_lock "worker:a" 12 60 1000)) held, granted 12)
unfolding acquire_lock check_safety upsert is_free_for held put new_lock
again_run = refl

abbrev attempts : Locks → List Event
attempts seen =
    record { call = acquire "worker:b" 21 60 none no_locks; resource = 5; at = 1050 }
    ∷ record { call = release "worker:b" 11 22 seen; resource = 5; at = 1060 }
    ∷ []

attempts-Harmless : Along (Harmless "worker:a" 1100 5) (attempts held) held
unfolding is_foreign IsCurrent perform acquire_lock check_safety upsert is_free_for held put
    new_lock
attempts-Harmless =
    step (λ m. (refl, omega arith, refl)) (step (λ m. (refl, omega arith, refl)) done)

lease-kept_example : verify_lock "worker:a" 11 1100 (run (attempts held) held) 5 ≡ true
lease-kept_example =
    lease-kept "worker:a" 11 1100 5 (attempts held) held attempts-Harmless holds_later

unfoldable marked : Locks
marked = quarantine_resource "uncertain" 90 1000 held 5

attempts-Uncleared :
    Along (Uncleared 5) (attempts marked) (quarantine_resource "uncertain" 90 1000 held 5)
unfolding is_clear IsCurrent perform acquire_lock check_safety upsert is_free_for held put new_lock
    quarantine_resource quarantined_row marked
attempts-Uncleared = step (λ m. (refl, refl)) (step (λ m. (refl, refl)) done)

quarantine-lasts_example :
    let after = run (attempts marked) (quarantine_resource "uncertain" 90 1000 held 5) in
    (verify_lock "worker:a" 11 1001 after 5 ≡ false)
    × ((renew_lock "worker:a" 11 60 1001 after 5).1 ≡ false)
    × ((e : LockError) × (acquire_lock "worker:a" 11 60 1001 none no_locks after 5
          ≡ (after, refused e)))
quarantine-lasts_example =
    quarantine-lasts "uncertain" 90 1000 5 (attempts marked) held attempts-Uncleared "worker:a" 11
      60 1001 none no_locks
