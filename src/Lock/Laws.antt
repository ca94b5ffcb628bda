-- ===== src/Lock/Laws.antt =====
-- Who may hold a resource: what the operations of `ResourceLockService` keep out, one by one and along
-- any sequence of them.
use self_healing_agent.Lock.Service.{
  release_lock_between, refusal, bad_duration, check_safety, one_year, refused, system_quarantine,
  LockError, quarantined_row, may_renew, is_free_for, upsert, put, clear_quarantine,
  quarantine_resource, holds, renew_lock, ResourceLock, AutomationControl, Locks, verify_lock,
  acquire_lock,
}
use self_healing_agent.Prelude.{
  none, ◌&&◌, leb, ◌||◌, ==_refl, ◌∙◌, sym, Bool-cases, not, str_eq_refl, str_eq→eq, inr, inl, ◌==◌,
  Option-cases, ◌↔◌, ◌<◌, ℕ, ◌≡◌, refl, Bool, true, false, ◌+◌, Option, some, String, str_eq, arith,
  List, [], ◌∷◌, ◌≤◌,
}

-- The calls of the service, with what each reads, and the database's time.
pub data Call : Type 0 where
  acquire : String → ℕ → ℕ → Option AutomationControl → Locks → Call
  renew : String → ℕ → ℕ → Call
  release : String → ℕ → ℕ → Locks → Call
  quarantine : String → ℕ → Call
  clear : Locks → Call

pub record Event : Type 0 where
  pub call : Call
  pub resource : ℕ
  pub at : ℕ

unfoldable pub perform : Call → ℕ → ℕ → Locks → Locks
perform (acquire actor token seconds control seen) now i locks =
    (acquire_lock actor token seconds now control seen locks i).0
perform (renew actor token seconds) now i locks = (renew_lock actor token seconds now locks i).0
perform (release actor token fresh seen) now i locks =
    (release_lock_between actor token fresh now seen locks i).0
perform (quarantine reason fresh) now i locks = quarantine_resource reason fresh now locks i
perform (clear seen) now i locks = clear_quarantine seen locks i

unfoldable pub run : List Event → Locks → Locks
run [] locks = locks
run (e ∷ es) locks = run es (perform e.call e.at e.resource locks)

-- No call touches another resource's row.
pub perform-other :
    (c : Call) (now i j : ℕ) (locks : Locks) → (j == i) ≡ false → perform c now i locks j ≡ locks j
unfolding perform acquire_lock renew_lock release_lock_between quarantine_resource clear_quarantine
    put
perform-other (acquire actor token seconds control seen) now i j locks h = ground arith
perform-other (renew actor token seconds) now i j locks h = ground arith
perform-other (release actor token fresh seen) now i j locks h = ground arith
perform-other (quarantine reason fresh) now i j locks h = ground arith
perform-other (clear seen) now i j locks h = ground arith

-- The row is quarantined.
pub record IsQuarantined (locks : Locks) (i : ℕ) : Type 0 where
  pub lock : ResourceLock
  pub row : locks i ≡ some lock
  pub flag : lock.quarantined ≡ true

-- The row is held by `actor` under `token` until after `end`.
pub record IsHeld (actor : String) (token until : ℕ) (locks : Locks) (i : ℕ) : Type 0 where
  pub lock : ResourceLock
  pub row : locks i ≡ some lock
  pub owner : lock.owner ≡ actor
  pub its_token : lock.token ≡ token
  pub unexpired : until < lock.expires_at
  pub unmarked : lock.quarantined ≡ false

pub verify_iff :
    (actor : String) (token now : ℕ) (locks : Locks) (i : ℕ)
    → (verify_lock actor token now locks i ≡ true) ↔ IsHeld actor token now locks i
unfolding verify_lock holds
verify_iff actor token now locks i = (
  (λ h. elim (Option-cases (locks i)) [
    | inl gone ↦ absurd (ground arith)
    | inr (lock, row) ↦ record {
      lock = lock;
      row = row;
      owner = str_eq→eq lock.owner actor (ground arith);
      its_token = ground arith;
      unexpired = ground arith;
      unmarked = ground arith;
    }
  ]),
  (λ h.
      let same : str_eq h.lock.owner actor ≡ true = rw h.owner (str_eq_refl actor) in
      ground (arith, h.row, same, h.its_token, h.unexpired, h.unmarked)),
)

-- The calls that cannot take a lease from `actor`: those of other owners, and `clear_quarantine`, which
-- leaves a lock that is not quarantined alone.
unfoldable pub is_foreign : String → Call → Bool
is_foreign actor (acquire a token seconds control seen) = not (str_eq a actor)
is_foreign actor (renew a token seconds) = not (str_eq a actor)
is_foreign actor (release a token fresh seen) = not (str_eq a actor)
is_foreign actor (quarantine reason fresh) = false
is_foreign actor (clear seen) = true

unfoldable pub is_clear : Call → Bool
is_clear (clear seen) = true
is_clear _ = false

-- A release or a clearing finds its row, when it writes, as it has read it. The others are one statement each.
unfoldable pub IsCurrent : Call → ℕ → Locks → Type 0
IsCurrent (release a token fresh seen) i locks = seen i ≡ locks i
IsCurrent (clear seen) i locks = seen i ≡ locks i
IsCurrent _ i locks = true ≡ true

-- Where it has not, it deletes whatever lease is there by then: nobody holds the resource any more.
release-stale :
    (actor : String) (token fresh now i : ℕ) (seen locks : Locks) (old : ResourceLock)
    → seen i ≡ some old
    → old.token ≡ token
    → old.owner ≡ actor
    → old.quarantined ≡ false
    → (release_lock_between actor token fresh now seen locks i).0 i ≡ none
unfolding release_lock_between put
release-stale actor token fresh now i seen locks old here its_token owner unmarked =
    let own : str_eq old.owner actor ≡ true = rw owner (str_eq_refl actor) in
    ground (arith, here, its_token, own, unmarked, ==_refl i)

pub IsHeld-same :
    (actor : String) (token until i : ℕ) (locks locks' : Locks)
    → locks' i ≡ locks i
    → IsHeld actor token until locks i
    → IsHeld actor token until locks' i
IsHeld-same actor token until i locks locks' same h = record {
  lock = h.lock;
  row = same ∙ h.row;
  owner = h.owner;
  its_token = h.its_token;
  unexpired = h.unexpired;
  unmarked = h.unmarked;
}

-- A lock that is held, read back from a row that a call left as it was.
module _ (actor : String) (token until now i : ℕ) (locks : Locks)
    (h : IsHeld actor token until locks i) where
  apart : (a : String) → not (str_eq a actor) ≡ true → str_eq h.lock.owner a ≡ false
  apart a n = elim (Bool-cases (str_eq h.lock.owner a)) [
    | inl same ↦
        let e : a ≡ actor = sym (str_eq→eq h.lock.owner a same) ∙ h.owner in
        let t : str_eq a actor ≡ true = rw e (str_eq_refl actor) in absurd (ground (arith, n, t))
    | inr other ↦ other
  ]

  pub row-kept :
      (c : Call)
      → is_foreign actor c ≡ true
      → now ≤ until
      → IsCurrent c i locks
      → perform c now i locks i ≡ locks i
  unfolding is_foreign perform acquire_lock renew_lock release_lock_between clear_quarantine
      IsCurrent upsert is_free_for may_renew put
  row-kept (acquire a t seconds control seen) n le cur =
      let other = apart a n in ground (arith, other, h.row, h.unexpired, h.unmarked, le)
  row-kept (renew a t seconds) n le cur = let other = apart a n in ground (arith, other, h.row)
  row-kept (release a t fresh seen) n le cur =
      let other = apart a n in ground (arith, other, cur, h.row)
  row-kept (quarantine reason fresh) n le cur = absurd (ground (arith, n))
  row-kept (clear seen) n le cur = ground (arith, cur, h.row, h.unmarked)

pub quarantine-kept :
    (c : Call) (now i : ℕ) (locks : Locks)
    → is_clear c ≡ false
    → IsCurrent c i locks
    → IsQuarantined locks i
    → IsQuarantined (perform c now i locks) i
unfolding is_clear perform acquire_lock renew_lock release_lock_between IsCurrent
    quarantine_resource upsert is_free_for may_renew put quarantined_row
quarantine-kept (acquire a t seconds control seen) now i locks n cur h = record {
  lock = h.lock;
  row = ground (arith, h.row, h.flag);
  flag = h.flag;
}
quarantine-kept (renew a t seconds) now i locks n cur h = record {
  lock = h.lock;
  row = ground (arith, h.row, h.flag);
  flag = h.flag;
}
quarantine-kept (release a t fresh seen) now i locks n cur h =
    elim (Bool-cases (not (h.lock.token == t) || not (str_eq h.lock.owner a))) [
      | inl foreign ↦ record {
        lock = h.lock;
        row = ground (arith, cur, h.row, h.flag, foreign);
        flag = h.flag;
      }
      | inr own ↦ record {
        lock = record h.lock {
          token = fresh;
          owner = system_quarantine;
          expires_at = now + one_year;
        };
        row = ground (arith, cur, h.row, h.flag, own, ==_refl i);
        flag = h.flag;
      }
    ]
quarantine-kept (quarantine reason fresh) now i locks n cur h = record {
  lock = quarantined_row reason fresh now (some h.lock);
  row = ground (arith, h.row, ==_refl i);
  flag = refl;
}
quarantine-kept (clear seen) now i locks n cur h = absurd (ground arith)

pub starts :
    (reason : String) (fresh now i : ℕ) (locks : Locks)
    → IsQuarantined (quarantine_resource reason fresh now locks i) i
unfolding quarantine_resource put quarantined_row
starts reason fresh now i locks = record {
  lock = quarantined_row reason fresh now (locks i);
  row = ground (arith, ==_refl i);
  flag = ground arith;
}

module _ {i : ℕ} {locks : Locks} (q : IsQuarantined locks i) (actor : String) (token now : ℕ) where
  pub no_verify : verify_lock actor token now locks i ≡ false
  unfolding verify_lock holds
  no_verify = ground (arith, q.row, q.flag)

  pub no_renew : (seconds : ℕ) → (renew_lock actor token seconds now locks i).1 ≡ false
  unfolding renew_lock may_renew
  no_renew seconds = ground (arith, q.row, q.flag)

  pub no_acquire :
      (seconds : ℕ) (control : Option AutomationControl) (seen : Locks)
      → (e : LockError) × (acquire_lock actor token seconds now control seen locks i
          ≡ (locks, refused e))
  unfolding acquire_lock upsert is_free_for
  no_acquire seconds control seen = elim (Option-cases (check_safety control seen i)) [
    | inr (e, unsafe) ↦ elim (Bool-cases (leb 1 seconds && leb seconds 3600)) [
      | inl good ↦ (e, ground (arith, good, unsafe))
      | inr bad ↦ (bad_duration, ground (arith, bad))
    ]
    | inl safe ↦ elim (Bool-cases (leb 1 seconds && leb seconds 3600)) [
      | inl good ↦ (refusal (some q.lock), ground (arith, good, safe, q.row, q.flag))
      | inr bad ↦ (bad_duration, ground (arith, bad))
    ]
  ]
