-- ===== src/Incident/Transition/Races.antt =====
-- Two workers whose reads and writes interleave.
use self_healing_agent.Prelude.{
  true≢false, ==→eq, ◌==◌, ◌+◌, refl, ◌≢◌, some, sym, ◌∙◌, ap, some, ◌≢◌, ℕ, ◌≡◌, false, arith,
}
use self_healing_agent.Incident.States.{IncidentState}
use self_healing_agent.Incident.Store.{
  find-update, ◌>>=◌, update-find, find_incident, Db, Result, ok, Incident,
}
use self_healing_agent.Incident.Transition.{
  transition, at_version, commit_transition, transition_between, apply_changes, check, changes_for,
  Changes,
}
use self_healing_agent.Incident.Transition.Laws.{
  moved-id, check_iff, plan-check, plan-ok, commit-ok, between-ok,
}

-- A worker whose version is not the stored row's at the time of its write commits nothing, whatever it
-- read before.
stale-loses :
    (seen db : Db) (i v : ℕ) (target : IncidentState) (now fresh : ℕ)
    → ((x : Incident) → find_incident i db.incidents ≡ some x → (x.version == v) ≡ false)
    → (r : Db × Incident) → transition_between seen db i v target now fresh ≢ ok r
stale-loses seen db i v target now fresh stale (db', y) h =
    let (c, planned, committed) = between-ok seen db i v target now fresh db' y h in
    let (run, box) = commit-ok seen db i v target now fresh c db' y committed in
    let (old, was, good, new) =
      update-find i (at_version v) (apply_changes c) db.incidents db'.incidents y run in
    true≢false (sym good ∙ stale old was)

changed-version : (c : Changes) (x : Incident) → (apply_changes c x).version ≡ c.version
unfolding apply_changes
changed-version c x = refl

new-version :
    (x : Incident) (v : ℕ) (target : IncidentState) (now : ℕ)
    → (changes_for x v target now).version ≡ v + 1
unfolding changes_for
new-version x v target now = refl

-- The row that a worker has stored is at the version after the one that it used.
between-version :
    (seen db : Db) (i v : ℕ) (target : IncidentState) (now fresh : ℕ) (db' : Db) (y : Incident)
    → transition_between seen db i v target now fresh ≡ ok (db', y)
    → (x : Incident) → find_incident i db'.incidents ≡ some x
    → x.version ≡ v + 1
between-version seen db i v target now fresh db' y h x here =
    let (c, planned, committed) = between-ok seen db i v target now fresh db' y h in
    let (was, read, legal, shape) = plan-ok seen db i v target now fresh c planned in
    let (run, box) = commit-ok seen db i v target now fresh c db' y committed in
    let set = apply_changes c in
    let (old, found, good, new) =
      update-find i (at_version v) set db.incidents db'.incidents y run in
    let stored = find-update i (at_version v) set (moved-id c) db.incidents db'.incidents y run in
    let same : y ≡ x = ground (arith, stored, here) in
    let row : y ≡ apply_changes (changes_for was v target now) old = cc (new, shape) in
    ap (λ (z : Incident). z.version) (sym same ∙ row)
    ∙ changed-version (changes_for was v target now) old
    ∙ new-version was v target now

-- Of two workers that both use version `v` of one incident, at most one moves it: after the first has
-- committed, the write of the second is refused, whatever each wanted and whichever store each had read.
pub transition-once :
    (read db : Db) (i v : ℕ) (target : IncidentState) (now fresh : ℕ) (db' : Db) (y : Incident)
    → transition_between read db i v target now fresh ≡ ok (db', y)
    → (seen : Db) (target' : IncidentState) (now' fresh' : ℕ) (r : Db × Incident)
    → transition_between seen db' i v target' now' fresh' ≢ ok r
transition-once read db i v target now fresh db' y h seen target' now' fresh' r =
    stale-loses seen db' i v target' now' fresh'
      (λ x here.
        let at = between-version read db i v target now fresh db' y h x here in ground (arith, at))
      r

-- Where equal versions of the row mean equal rows, a transition that commits after reading an older
-- store does what it would do undisturbed on the store that it writes.
pub transition_between-serial :
    (seen db : Db) (i v : ℕ) (target : IncidentState) (now fresh : ℕ)
    → ((x y : Incident)
        → find_incident i seen.incidents ≡ some x
        → find_incident i db.incidents ≡ some y
        → x.version ≡ y.version
        → x ≡ y)
    → (r : Db × Incident) → transition_between seen db i v target now fresh ≡ ok r
    → transition db i v target now fresh ≡ ok r
unfolding transition transition_between
transition_between-serial seen db i v target now fresh agree (db', y) h =
    let (c, planned, committed) = between-ok seen db i v target now fresh db' y h in
    let (x, here, legal, shape) = plan-ok seen db i v target now fresh c planned in
    let (run, box) = commit-ok seen db i v target now fresh c db' y committed in
    let (old, was, good, new) =
      update-find i (at_version v) (apply_changes c) db.incidents db'.incidents y run in
    let same = agree x old here was (legal.current ∙ sym (==→eq old.version v good)) in
    let checked : check old v target now ≡ ok c =
      ap (λ (z : Incident). check z v target now) (sym same)
      ∙ ((check_iff x v target now).1 legal ∙ ap ok (sym shape)) in
    ap (λ (p : Result Changes). p >>= commit_transition db i v target fresh)
      (plan-check seen db i v target now fresh old was ∙ checked)
    ∙ committed
