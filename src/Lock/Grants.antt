-- ===== src/Lock/Grants.antt =====
-- What a granted lease excludes, and what it is good for.
use self_healing_agent.Lock.Laws.{verify_iff}
use self_healing_agent.Prelude.{
  refl, inr, ==_refl, inl, subst, str_eq→eq, ap, ◌∙◌, ◌<◌, sym, false, Option-cases, ◌+◌, ◌↔◌,
  arith, true, some, ◌≡◌, ◌≢◌, Option, ℕ, String,
}
use self_healing_agent.Lock.Service.{
  granted, verify_lock, AutomationControl, ResourceLock, new_lock, Locks, is_free_for, upsert, put,
  acquire_lock,
}

-- Where somebody holds the resource, whatever an acquiring owner had read, only that somebody is granted.
pub acquire-exclusive :
    (holder actor : String) (held token seconds now i : ℕ) (control : Option AutomationControl)
    (seen locks locks' : Locks) (t : ℕ)
    → verify_lock holder held now locks i ≡ true
    → acquire_lock actor token seconds now control seen locks i ≡ (locks', granted t)
    → holder ≡ actor
unfolding acquire_lock upsert is_free_for
acquire-exclusive holder actor held token seconds now i control seen locks locks' t v run =
    let h = (verify_iff holder held now locks i).0 v in
    sym h.owner ∙ str_eq→eq h.lock.owner actor (ground (arith, run, h.row, h.unexpired, h.unmarked))

put-here : (i : ℕ) (row : Option ResourceLock) (locks : Locks) → put i row locks i ≡ row
unfolding put
put-here i row locks = rw (==_refl i) refl

put-there :
    (i j : ℕ) (row : Option ResourceLock) (locks : Locks) → j ≢ i → put i row locks j ≡ locks j
unfolding put
put-there i j row locks n = ground arith

-- The row that a grant writes.
record IsGranted (actor : String) (token seconds now i t : ℕ) (locks locks' : Locks) : Type 0 where
  row : ResourceLock
  table : locks' ≡ put i (some row) locks
  its : t ≡ token
  owner : row.owner ≡ actor
  its_token : row.token ≡ token
  until : row.expires_at ≡ now + seconds
  unmarked : row.quarantined ≡ false

granted-row :
    (actor : String) (token seconds now i : ℕ) (control : Option AutomationControl)
    (seen locks locks' : Locks) (t : ℕ)
    → acquire_lock actor token seconds now control seen locks i ≡ (locks', granted t)
    → IsGranted actor token seconds now i t locks locks'
unfolding acquire_lock upsert is_free_for new_lock
granted-row actor token seconds now i control seen locks locks' t run =
    elim (Option-cases (locks i)) [
      | inl gone ↦ record {
        row = new_lock actor token seconds now;
        table = ground (arith, gone);
        its = ground (arith, gone);
        owner = refl;
        its_token = refl;
        until = refl;
        unmarked = refl;
      }
      | inr (lock, here) ↦ record {
        row = record lock {
          owner = actor;
          token = token;
          acquired_at = now;
          expires_at = now + seconds;
        };
        table = ground (arith, here);
        its = ground (arith, here);
        owner = refl;
        its_token = refl;
        until = refl;
        unmarked = ground (arith, here);
      }
    ]

-- What a granted lease is good for: its owner's new token is accepted until the lease is over, no
-- other owner or token ever is, and no other resource's lock changes.
pub acquire-grants :
    (actor : String) (token seconds now i : ℕ) (control : Option AutomationControl)
    (seen locks locks' : Locks) (t : ℕ)
    → acquire_lock actor token seconds now control seen locks i ≡ (locks', granted t)
    → (t ≡ token)
      × ((at : ℕ) (o : String) (u : ℕ)
          → (verify_lock o u at locks' i ≡ true)
            ↔ ((o ≡ actor) × (u ≡ token) × (at < now + seconds)))
      × ((j : ℕ) → j ≢ i → locks' j ≡ locks j)
acquire-grants actor token seconds now i control seen locks locks' t run =
    let g = granted-row actor token seconds now i control seen locks locks' t run in
    let at_i : locks' i ≡ some g.row = rw g.table (put-here i (some g.row) locks) in
    (
      g.its,
      (λ at o u. (
        (λ v.
            let h = (verify_iff o u at locks' i).0 v in
            let same : g.row ≡ h.lock = ground (arith, at_i, h.row) in
            (
              sym h.owner ∙ (ap (λ (r : ResourceLock). r.owner) (sym same) ∙ g.owner),
              sym h.its_token ∙ (ap (λ (r : ResourceLock). r.token) (sym same) ∙ g.its_token),
              subst (λ n. at < n) (ap (λ (r : ResourceLock). r.expires_at) (sym same) ∙ g.until)
                  h.unexpired,
            )),
        (λ (o_is, u_is, before). (verify_iff o u at locks' i).1 (record {
          lock = g.row;
          row = at_i;
          owner = g.owner ∙ sym o_is;
          its_token = g.its_token ∙ sym u_is;
          unexpired = rw g.until before;
          unmarked = g.unmarked;
        })),
      )),
      (λ j n. rw g.table (put-there i j (some g.row) locks n)),
    )
