-- ===== src/Approvals/Submit.antt =====
-- `submit_approval`, as a request of a user that may approve; `idempotency_key` is read nowhere.
pub mod Granted
pub mod Contract
pub mod Refused
pub mod Lasting
use self_healing_agent.Incident.States.{approved, escalated, pending_approval, IncidentState}
use self_healing_agent.Prelude.{
  [], some, ◌&&◌, ◌==◌, ◌+◌, ◌∷◌, map, not, ◌*◌, find, ltb, str_eq, keep, some_and, ◌++◌, ℕ, String,
  if◌then◌else◌, Option, List, Bool, none, false, true,
}
use self_healing_agent.Text.{is_blank, strip}
use self_healing_agent.Approvals.Store.{Approval, is_of_plan, latest, record_approval}
use self_healing_agent.Incident.Store.{ok, err, Db, Failure, Incident, find_incident}
use self_healing_agent.Incident.Transition.{transition}

pub data Decision : Type 0 where
  approve reject : Decision

unfoldable pub decision_value : Decision → String
decision_value approve = "APPROVE"
decision_value reject = "REJECT"

pub record ApprovalRequestBody : Type 0 where
  pub decision : Decision
  pub expected_incident_version : ℕ
  pub plan_version : ℕ
  pub content_hash : Option String
  pub rejection_reason : Option String

pub record RemediationPlan : Type 0 where
  pub id : ℕ
  pub incident_id : ℕ
  pub version : ℕ
  pub content_hash : Option String
  pub approved : Bool

-- `summary`, `title`, `ticket_reference` and `actor` are texts and left out.
pub record EscalationRecord : Type 0 where
  pub id : ℕ
  pub incident_id : ℕ
  pub root_cause : String

pub record Records : Type 0 where
  pub control : Db
  pub plans : List RemediationPlan
  pub approvals : List Approval
  pub escalations : List EscalationRecord

-- The user, the answer of the rate limiter, the clock and the fresh UUIDs of a request.
pub record Request : Type 0 where
  pub user_id : ℕ
  pub username : String
  pub is_allowed : Bool
  pub now : ℕ
  pub fresh : ℕ
  pub fresh_event : ℕ
  pub fresh_record : ℕ

-- HTTPException by its status code, and what the repository raises.
pub data ApiError : Type 0 where
  too_many_requests unprocessable not_found_error conflict gone : ApiError
  repository : Failure → ApiError

pub record ApprovalResponse : Type 0 where
  pub id : ℕ
  pub plan_id : ℕ
  pub plan_version : ℕ
  pub decision : String
  pub rejection_reason : Option (List ℕ)
  pub approver : String
  pub created_at : ℕ
  pub expires_at : ℕ
  pub incident_state : IncidentState
  pub incident_version : ℕ

pub data Reply : Type 0 where
  replied : ApprovalResponse → Reply
  refused : ApiError → Reply

-- `unit_of_work`: what the body wrote is committed where it returns, and rolled back where it raises.
unfoldable pub unit_of_work : Records → Records × Reply → Records × Reply
unit_of_work before (after, replied r) = (after, replied r)
unit_of_work before (after, refused e) = (before, refused e)

-- `not body.rejection_reason or not body.rejection_reason.strip()`
unfoldable pub lacks_reason : Option String → Bool
lacks_reason none = true
lacks_reason (some s) = is_blank s

unfoldable pub stripped : Option String → Option (List ℕ)
stripped none = none
stripped (some s) = if str_eq s "" then none else some (strip s)

unfoldable pub is_reject : Decision → Bool
is_reject reject = true
is_reject approve = false

-- `select(RemediationPlan).where(incident_id == …, version == …)`
unfoldable pub find_plan : ℕ → ℕ → List RemediationPlan → Option RemediationPlan
find_plan incident_id version plans =
    find (λ (p : RemediationPlan). p.incident_id == incident_id && p.version == version) plans

-- `body.content_hash and plan.content_hash and body.content_hash != plan.content_hash`
unfoldable pub hash_mismatch : Option String → Option String → Bool
hash_mismatch given stored =
    some_and given
      (λ h. some_and stored (λ k. not (str_eq h "") && not (str_eq k "") && not (str_eq h k)))

unfoldable pub find_approval : RemediationPlan → ℕ → List Approval → Option Approval
find_approval plan version rows =
    latest (λ (a : Approval). a.created_at)
      (keep (λ (a : Approval). is_of_plan plan.id version a) rows)

unfoldable pub response_of : Request → RemediationPlan → Approval → Incident → ApprovalResponse
response_of request plan a incident = record {
  id = a.id;
  plan_id = plan.id;
  plan_version = plan.version;
  decision = a.decision;
  rejection_reason = a.rejection_reason;
  approver = request.username;
  created_at = a.created_at;
  expires_at = a.expires_at;
  incident_state = incident.state;
  incident_version = incident.version;
}

-- Step 3, for a plan version that has an approval.
unfoldable pub replay :
    Request
    → ApprovalRequestBody
    → Records
    → RemediationPlan
    → Incident
    → Approval
    → Records × Reply
replay request body db plan incident a =
    if str_eq a.decision (decision_value body.decision)
    then (db, replied (response_of request plan a incident))
    else (db, refused conflict)

-- `timedelta(minutes=30)` and `timedelta(minutes=29, seconds=55)`
abbrev pub request_window : ℕ
request_window = 30 * 60

abbrev pub grant_window : ℕ
grant_window = 29 * 60 + 55

unfoldable pub is_expired : Incident → ℕ → Bool
is_expired incident now = ltb (incident.updated_at + request_window) now

unfoldable pub create_escalation_record :
    ℕ → ℕ → String → List EscalationRecord → List EscalationRecord
create_escalation_record fresh incident_id root_cause rows =
    rows ++ record { id = fresh; incident_id = incident_id; root_cause = root_cause } ∷ []

unfoldable pub is_pending_approval : IncidentState → Bool
is_pending_approval pending_approval = true
is_pending_approval _ = false

-- Step 4, past the deadline; it always raises.
unfoldable pub expire : Request → ℕ → Records → Incident → Records × Reply
expire request incident_id db incident =
    if is_pending_approval incident.state
    then elim (transition db.control incident_id incident.version escalated request.now
        request.fresh_event) [
          | err e ↦ (db, refused (repository e))
          | ok (control, updated) ↦ (
            record db {
              control = control;
              escalations =
                  create_escalation_record request.fresh_record incident_id "APPROVAL_EXPIRED"
                    db.escalations;
            },
            refused gone,
          )
        ]
    else (db, refused gone)

unfoldable pub mark_approved : ℕ → List RemediationPlan → List RemediationPlan
mark_approved id plans =
    map (λ (p : RemediationPlan). if p.id == id then record p { approved = true } else p) plans

unfoldable pub target_of : Decision → IncidentState
target_of approve = approved
target_of reject = escalated

-- `record_approval`, with the arguments that the two branches give it.
unfoldable pub recorded_approval :
    Request → ApprovalRequestBody → RemediationPlan → List Approval → List Approval × Approval
recorded_approval request body plan rows =
    record_approval request.fresh plan.id plan.version request.user_id
      (decision_value body.decision)
      (if is_reject body.decision then stripped body.rejection_reason else none)
      (request.now + grant_window) request.now rows

-- What the two branches write beside the incident.
unfoldable pub decided_records :
    Request → ℕ → ApprovalRequestBody → Records → RemediationPlan → Db → Records
decided_records request incident_id body db plan control = record {
  control = control;
  plans = if is_reject body.decision then db.plans else mark_approved plan.id db.plans;
  approvals = (recorded_approval request body plan db.approvals).0;
  escalations =
      if is_reject body.decision
      then create_escalation_record request.fresh_record incident_id "PLAN_REJECTED" db.escalations
      else db.escalations;
}

-- The last step: the decision is recorded and the incident moved.
unfoldable pub record_decision :
    Request → ℕ → ApprovalRequestBody → Records → RemediationPlan → Incident → Records × Reply
record_decision request incident_id body db plan incident =
    elim (transition db.control incident_id incident.version (target_of body.decision) request.now
      request.fresh_event) [
        | err e ↦ (db, refused (repository e))
        | ok (control, updated) ↦ (
          decided_records request incident_id body db plan control,
          replied (
              response_of request plan (recorded_approval request body plan db.approvals).1
                updated),
        )
      ]

-- Steps 4 and 5, for a plan version without an approval.
unfoldable pub decide :
    Request → ℕ → ApprovalRequestBody → Records → RemediationPlan → Incident → Records × Reply
decide request incident_id body db plan incident =
    if is_expired incident request.now
    then expire request incident_id db incident
    else if not (is_pending_approval incident.state)
    then (db, refused conflict)
    else if not (incident.version == body.expected_incident_version)
    then (db, refused conflict)
    else record_decision request incident_id body db plan incident

-- The body of the `with`.
unfoldable pub submit_body : Request → ℕ → ApprovalRequestBody → Records → Records × Reply
submit_body request incident_id body db = elim (find_incident incident_id db.control.incidents) [
  | none ↦ (db, refused not_found_error)
  | some incident ↦ elim (find_plan incident_id body.plan_version db.plans) [
    | none ↦ (db, refused not_found_error)
    | some plan ↦
        if hash_mismatch body.content_hash plan.content_hash
        then (db, refused conflict)
        else elim (find_approval plan body.plan_version db.approvals) [
          | some a ↦ replay request body db plan incident a
          | none ↦ decide request incident_id body db plan incident
        ]
  ]
]

unfoldable pub submit_approval : Request → ℕ → ApprovalRequestBody → Records → Records × Reply
submit_approval request incident_id body db =
    if not request.is_allowed
    then (db, refused too_many_requests)
    else if is_reject body.decision && lacks_reason body.rejection_reason
    then (db, refused unprocessable)
    else unit_of_work db (submit_body request incident_id body db)
