-- ===== src/Lock/Sequences.antt =====
-- Leases and quarantines along any sequence of calls, whoever makes them.

use self_healing_agent.Lock.Service.{
  refused, acquire_lock, LockError, renew_lock, quarantine_resource, AutomationControl, verify_lock,
  Locks,
}
use self_healing_agent.Prelude.{
  [], ◌∷◌, inr, ◌∙◌, ==→eq, subst, sym, inl, ◌∷◌, false, ◌≤◌, Bool-cases, Option, true, ◌≡◌, ◌==◌,
  List, ℕ, String,
}
use self_healing_agent.Lock.Laws.{
  IsCurrent, IsHeld-same, perform-other, quarantine-kept, row-kept, verify_iff, no_acquire,
  no_renew, no_verify, starts, is_foreign, is_clear, IsQuarantined, perform, IsHeld, Event, run,
}

-- Each call of a sequence is as `p` says of it and of the table that it writes.
pub data Along (p : Event → Locks → Type 0) : List Event → Locks → Type 0 where
  done : {locks : Locks} → Along p [] locks
  step :
      {e : Event} {es : List Event} {locks : Locks}
      → p e locks
      → Along p es (perform e.call e.at e.resource locks)
      → Along p (e ∷ es) locks

-- A call that cannot end the lease of `actor` on `i` before `until` is over.
abbrev pub Harmless : String → ℕ → ℕ → Event → Locks → Type 0
Harmless actor until i e locks =
    (i == e.resource) ≡ true
    → (is_foreign actor e.call ≡ true) × (e.at ≤ until) × IsCurrent e.call i locks

perform-IsHeld :
    (actor : String) (token until i : ℕ) (e : Event) (locks : Locks)
    → Harmless actor until i e locks
    → IsHeld actor token until locks i
    → IsHeld actor token until (perform e.call e.at e.resource locks) i
perform-IsHeld actor token until i e locks safe h = elim (Bool-cases (i == e.resource)) [
  | inl mine ↦
      let (foreign, le, current) = safe mine in
      let r = ==→eq i e.resource mine in
      let same : perform e.call e.at e.resource locks i ≡ locks i =
        rw (sym r) (row-kept actor token until e.at i locks h e.call foreign le current) in
      IsHeld-same actor token until i locks (perform e.call e.at e.resource locks) same h
  | inr other ↦
      IsHeld-same actor token until i locks (perform e.call e.at e.resource locks)
        (perform-other e.call e.at e.resource i locks other) h
]

-- A lease that `verify_lock` would still accept at the time `until` is accepted then after any sequence
-- of calls that are on other resources, or come by `until` from other owners and are no quarantine, and of
-- which each release and each clearing of the resource writes the row as it has read it.
pub lease-kept :
    (actor : String) (token until i : ℕ) (es : List Event) (locks : Locks)
    → Along (Harmless actor until i) es locks
    → verify_lock actor token until locks i ≡ true
    → verify_lock actor token until (run es locks) i ≡ true
unfolding run
lease-kept actor token until i [] locks done h = h
lease-kept actor token until i (e ∷ es) locks (step now_safe later_safe) h =
    let held = (verify_iff actor token until locks i).0 h in
    let next = perform-IsHeld actor token until i e locks now_safe held in
    lease-kept actor token until i es (perform e.call e.at e.resource locks) later_safe
      ((verify_iff actor token until (perform e.call e.at e.resource locks) i).1 next)

-- No call of the sequence clears the quarantine of `i`, and its releases write the row as they have read it.
abbrev pub Uncleared : ℕ → Event → Locks → Type 0
Uncleared i e locks =
    (i == e.resource) ≡ true → (is_clear e.call ≡ false) × IsCurrent e.call i locks

run-IsQuarantined :
    (i : ℕ) (es : List Event) (locks : Locks)
    → Along (Uncleared i) es locks
    → IsQuarantined locks i
    → IsQuarantined (run es locks) i
unfolding run
run-IsQuarantined i [] locks done h = h
run-IsQuarantined i (e ∷ es) locks (step now_safe later_safe) h =
    run-IsQuarantined i es (perform e.call e.at e.resource locks) later_safe
      (elim (Bool-cases (i == e.resource)) [
        | inl mine ↦
            subst (λ r. IsQuarantined (perform e.call e.at r locks) i) (==→eq i e.resource mine)
              (quarantine-kept e.call e.at i locks (now_safe mine).0 (now_safe mine).1 h)
        | inr other ↦ record {
          lock = h.lock;
          row = perform-other e.call e.at e.resource i locks other ∙ h.row;
          flag = h.flag;
        }
      ])

-- From a quarantine on, along any sequence of calls that never clears it and in which each release of the
-- resource writes the row as it has read it, nobody is granted the resource, nobody renews it and `verify_lock` accepts nobody, whatever the safety check had read.
pub quarantine-lasts :
    (reason : String) (fresh at i : ℕ) (es : List Event) (locks : Locks)
    → Along (Uncleared i) es (quarantine_resource reason fresh at locks i)
    → (actor : String) (token seconds now : ℕ) (control : Option AutomationControl) (seen : Locks)
    → let after = run es (quarantine_resource reason fresh at locks i) in
      (verify_lock actor token now after i ≡ false)
      × ((renew_lock actor token seconds now after i).1 ≡ false)
      × ((e : LockError) × (acquire_lock actor token seconds now control seen after i
            ≡ (after, refused e)))
quarantine-lasts reason fresh at i es locks safe actor token seconds now control seen =
    let q =
      run-IsQuarantined i es (quarantine_resource reason fresh at locks i) safe
        (starts reason fresh at i locks) in
    (
      no_verify q actor token now,
      no_renew q actor token now seconds,
      no_acquire q actor token now seconds control seen,
    )
