-- ===== src/Incident/Tests.antt =====
-- One incident through the laws of the lifecycle.
use self_healing_agent.Incident.Creation.{
  returned, get_active_incident_by_correlation_key, insert_incident, is_active_for, IsUnique,
  new_incident, actives, get_or_create_incident,
}
use self_healing_agent.Incident.Transition.Races.{transition_between-serial, transition-once}
use self_healing_agent.Prelude.{
  inr, subst, [], inl, none, refl, ◌+◌, ◌==◌, false, Bool-cases, some, ◌*◌, arith, ◌≢◌, true, ◌≤◌,
  ◌≡◌, ◌∷◌,
}
use self_healing_agent.Incident.States.{
  is_approved, is_resolved, is_retry, is_planned, can_move, high, planned, resolved, verifying,
  escalated, diagnosed, is_terminal,
}
use self_healing_agent.Incident.Transition.Histories.{
  lifecycle_bound, ask, move, serve_all, rank, IsBounded, writes_left, EveryRow,
}
use self_healing_agent.Incident.Transition.Contract.{
  transition-commits_iff, IsPermitted, transition-writes, IsEffect,
}
use self_healing_agent.Incident.Transition.{
  breaks_approval, apply_changes, changes_for, check, commit_transition, plan_transition,
  require_changes, transition, require_incident_approval, transition_between,
}
use self_healing_agent.Incident.Store.{ok, update_incident, Db, Incident, find_incident}

abbrev unit : Incident
unit = record {
  id = 3;
  resource_id = 9;
  correlation_key = "demo-api:down";
  state = verifying;
  severity = high;
  version = 7;
  attempts = 1;
  retry_limit = 2;
  approval_required = false;
  updated_at = 100;
  resolved_at = none;
}

abbrev waiting : Incident
waiting = record unit { id = 4; state = planned; version = 4; attempts = 0 }

abbrev store : Db
store = record { incidents = unit ∷ waiting ∷ []; outbox = [] }

abbrev retried : Incident
retried = record unit { state = diagnosed; version = 8; attempts = 2; updated_at = 200 }

abbrev after_retry : Db
after_retry = record { incidents = retried ∷ waiting ∷ []; outbox = [] }

retry_run : transition store 3 7 diagnosed 200 50 ≡ ok (after_retry, retried)
unfolding transition transition_between plan_transition commit_transition check changes_for
    apply_changes find_incident update_incident can_move breaks_approval is_planned is_retry
    is_resolved is_approved
retry_run = refl

-- The store before another worker planned the second incident.
abbrev older : Db
older = record {
  incidents = unit ∷ record waiting { state = diagnosed; version = 3 } ∷ [];
  outbox = [];
}

between_run : transition_between older store 3 7 diagnosed 200 50 ≡ ok (after_retry, retried)
unfolding transition_between plan_transition commit_transition check changes_for apply_changes
    find_incident update_incident can_move breaks_approval is_planned is_retry is_resolved
    is_approved
between_run = refl

transition-commits_iff_example :
    (x : Incident) × (find_incident 3 store.incidents ≡ some x) × IsPermitted x 7 diagnosed
transition-commits_iff_example =
    (transition-commits_iff store 3 7 diagnosed 200 50).0 ((after_retry, retried), retry_run)

transition-writes_example : IsEffect store after_retry 3 7 diagnosed 200 50 retried
transition-writes_example =
    transition-writes store 3 7 diagnosed 200 50 after_retry retried retry_run

transition-once_example :
    transition_between older after_retry 3 7 escalated 210 51 ≢ ok (store, unit)
transition-once_example =
    transition-once older store 3 7 diagnosed 200 50 after_retry retried between_run older escalated
      210 51 (store, unit)

same_unit :
    (x y : Incident)
    → find_incident 3 older.incidents ≡ some x
    → find_incident 3 store.incidents ≡ some y
    → x.version ≡ y.version
    → x ≡ y
unfolding find_incident
same_unit x y a b v = ground (arith, a, b)

transition_between-serial_example :
    transition store 3 7 diagnosed 200 50 ≡ ok (after_retry, retried)
transition_between-serial_example =
    transition_between-serial older store 3 7 diagnosed 200 50 same_unit (after_retry, retried)
      between_run

abbrev guarded : Incident
guarded = record waiting { approval_required = true; version = 5 }

abbrev after_ask : Db
after_ask = record { incidents = unit ∷ guarded ∷ []; outbox = [] }

ask_run : require_incident_approval store 4 4 ≡ ok (after_ask, guarded)
unfolding require_incident_approval require_changes update_incident is_planned
ask_run = refl

unit-IsBounded : IsBounded unit
unfolding writes_left rank
unit-IsBounded = record { retries = omega arith; writes = omega arith }

waiting-IsBounded : IsBounded waiting
unfolding writes_left rank
waiting-IsBounded = record { retries = omega arith; writes = omega arith }

store-IsBounded : EveryRow IsBounded store
unfolding find_incident
store-IsBounded i x here = elim (Bool-cases (3 == i)) [
  | inl first ↦
      let same : unit ≡ x = ground (arith, here, first) in subst IsBounded same unit-IsBounded
  | inr not_first ↦
      let same : waiting ≡ x = ground (arith, here, not_first) in
      subst IsBounded same waiting-IsBounded
]

lifecycle_bound_example :
    EveryRow
      (λ x. (x.attempts ≤ x.retry_limit) × (x.version ≤ 6 * x.retry_limit + 10))
      (serve_all (move 3 7 diagnosed 200 50 ∷ ask 4 4 ∷ []) store)
lifecycle_bound_example =
    lifecycle_bound (move 3 7 diagnosed 200 50 ∷ ask 4 4 ∷ []) store store-IsBounded

abbrev fresh_incident : Incident
fresh_incident = new_incident 77 9 "demo-api:down" high false 300

abbrev finished : Db
finished = record { incidents = record unit { state = resolved } ∷ []; outbox = [] }

finished-IsUnique : IsUnique finished
unfolding actives is_active_for is_terminal
finished-IsUnique key = ground arith

abbrev reopened : Db
reopened = record {
  incidents = record unit { state = resolved } ∷ fresh_incident ∷ [];
  outbox = [];
}

create_run :
    get_or_create_incident finished finished finished fresh_incident
    ≡ returned reopened fresh_incident true
unfolding get_or_create_incident insert_incident get_active_incident_by_correlation_key
    is_active_for is_terminal new_incident
create_run = refl
