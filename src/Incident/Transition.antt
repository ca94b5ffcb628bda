-- ===== src/Incident/Transition.antt =====
-- `transition` and `require_incident_approval` of control_plane.py: versioned writes to one incident.

pub mod Laws
pub mod Contract
pub mod Races
pub mod Histories
use self_healing_agent.Prelude.{
  ℕ, ◌+◌, Bool, true, false, ◌&&◌, not, ite, [], ◌∷◌, ◌++◌, Option, none, some, ◌==◌, leb,
  if◌then◌else◌,
}
use self_healing_agent.Incident.States.{
  IncidentState, IncidentState-discrete, approved, pending_approval, executing, can_move,
  is_planned, is_escalated, is_approved, is_resolved, is_retry,
}
use self_healing_agent.Incident.Store.{
  lookup_error, conflict_error, value_error, Result, ok, err, ◌>>=◌, Incident, OutboxEvent, pending,
  Db, find_incident, update_incident,
}

-- The dictionary `values` of an incident update; `none` where a key is not set.
pub record Changes : Type 0 where
  pub state : IncidentState
  pub version : ℕ
  pub updated_at : ℕ
  pub attempts : Option ℕ
  pub resolved_at : Option ℕ

abbrev pub set_or {ℓ} : {A : Type ℓ} → Option A → A → A
set_or none a = a
set_or (some b) a = b

abbrev pub keep_or {ℓ} : {A : Type ℓ} → Option A → Option A → Option A
keep_or none o = o
keep_or (some a) o = some a

unfoldable pub apply_changes : Changes → Incident → Incident
apply_changes c x = record x {
  state = c.state;
  version = c.version;
  updated_at = c.updated_at;
  attempts = set_or c.attempts x.attempts;
  resolved_at = keep_or c.resolved_at x.resolved_at;
}

-- Where the incident is PLANNED, the state that the approval requirement asks for (lines 282 to 286).
unfoldable pub required_target : Incident → IncidentState
required_target x = if x.approval_required then pending_approval else executing

unfoldable pub breaks_approval : Incident → IncidentState → Bool
breaks_approval x target =
    is_planned x.state
    && not (is_escalated target)
    && ite (IncidentState-discrete target (required_target x)) false true

-- Lines 289 to 296.
unfoldable pub changes_for : Incident → ℕ → IncidentState → ℕ → Changes
changes_for x expected_version target now =
    let retry = is_retry x.state target in
    record {
      state = target;
      version = expected_version + 1;
      updated_at = now;
      attempts = if retry then some (x.attempts + 1) else none;
      resolved_at = if is_resolved target then some now else none;
    }

-- Lines 278 to 296, on the incident that was read.
unfoldable pub check : Incident → ℕ → IncidentState → ℕ → Result Changes
check x expected_version target now =
    if not (x.version == expected_version)
    then err conflict_error
    else if not (can_move x.state target)
    then err value_error
    else if breaks_approval x target
    then err value_error
    else if is_retry x.state target && leb x.retry_limit x.attempts
    then err value_error
    else ok (changes_for x expected_version target now)

-- Lines 275 to 296: the incident is read from the store `seen`.
unfoldable pub plan_transition : Db → ℕ → ℕ → IncidentState → ℕ → Result Changes
plan_transition seen incident_id expected_version target now =
    elim (find_incident incident_id seen.incidents) [
      | none ↦ err lookup_error
      | some x ↦ check x expected_version target now
    ]

unfoldable pub approved_event : ℕ → ℕ → ℕ → Incident → OutboxEvent
approved_event fresh incident_id expected_version updated = record {
  id = fresh;
  event_type = "incident.approved";
  aggregate_id = incident_id;
  aggregate_version = expected_version + 1;
  payload = record {
    incident_id = incident_id;
    state = approved;
    version = expected_version + 1;
    severity = updated.severity;
    correlation_key = updated.correlation_key;
    resource_id = updated.resource_id;
  };
  status = pending;
  retry_count = 0;
  last_error = none;
  published_at = none;
}

abbrev pub at_version : ℕ → Incident → Bool
at_version v x = x.version == v

-- Lines 297 to 329: the update, on the store `db` at the time of the write, and the outbox row.
unfoldable pub commit_transition : Db → ℕ → ℕ → IncidentState → ℕ → Changes → Result (Db × Incident)
commit_transition db incident_id expected_version target fresh values =
    elim (update_incident incident_id (at_version expected_version) (apply_changes values)
      db.incidents) [
        | none ↦ err conflict_error
        | some (updated, rows) ↦ ok (
          record db {
            incidents = rows;
            outbox =
                if is_approved target
                then db.outbox ++ approved_event fresh incident_id expected_version updated ∷ []
                else db.outbox;
          },
          updated,
        )
      ]

-- `transition`, where other workers may commit between its read and its write.
unfoldable pub transition_between : Db → Db → ℕ → ℕ → IncidentState → ℕ → ℕ → Result (Db × Incident)
transition_between seen db incident_id expected_version target now fresh = do
  values ← plan_transition seen incident_id expected_version target now
  commit_transition db incident_id expected_version target fresh values

-- `transition`, undisturbed.
unfoldable pub transition : Db → ℕ → ℕ → IncidentState → ℕ → ℕ → Result (Db × Incident)
transition db = transition_between db db

abbrev pub may_require : ℕ → Incident → Bool
may_require v x = x.version == v && is_planned x.state && not x.approval_required

unfoldable pub require_changes : ℕ → Incident → Incident
require_changes v x = record x { approval_required = true; version = v + 1 }

-- `require_incident_approval`: one conditional update.
unfoldable pub require_incident_approval : Db → ℕ → ℕ → Result (Db × Incident)
require_incident_approval db incident_id expected_version =
    elim (update_incident incident_id (may_require expected_version)
      (require_changes expected_version) db.incidents) [
        | none ↦ err conflict_error
        | some (incident, rows) ↦ ok (record db { incidents = rows }, incident)
      ]
