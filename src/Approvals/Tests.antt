-- ===== src/Approvals/Tests.antt =====
-- An incident that waits for approval, approved, rejected and asked about again.
use self_healing_agent.Approvals.Submit.Contract.{
  submit-changes_iff, submit-keeps, IsDecidable-IsOpenTo, IsKept, IsOpenTo,
}
use self_healing_agent.Incident.Transition.{
  changes_for, apply_changes, commit_transition, breaks_approval, check, plan_transition,
  transition_between, transition,
}
use self_healing_agent.Approvals.Store.{is_of_plan, latest}
use self_healing_agent.Approvals.Submit.Lasting.{submit-repeats, submit-grant}
use self_healing_agent.Text.{is_space, strip_end, strip_start, strip, is_blank}
use self_healing_agent.Incident.States.{
  is_retry, is_resolved, is_approved, is_escalated, is_planned, can_move, high, pending_approval,
}
use self_healing_agent.Approvals.Submit.Granted.{IsDecidable}
use self_healing_agent.Adapter.Intent.{ExecutionIntent}
use self_healing_agent.Incident.Store.{update_incident, find_incident, Incident}
use self_healing_agent.Adapter.Precheck.{granted_approval, check_grant}
use self_healing_agent.Prelude.{
  arith, ◌+◌, ◌<◌, ◌↔◌, ◌≢◌, refl, none, some, ◌≡◌, [], ◌∷◌, false, true,
}
use self_healing_agent.Approvals.Submit.{
  create_escalation_record, is_pending_approval, expire, is_expired, decide, submit_body,
  unit_of_work, conflict, decision_value, grant_window, find_approval, hash_mismatch, find_plan,
  gone, refused, replied, lacks_reason, approve, ApprovalResponse, submit_approval, is_reject,
  reject, Records, Request, RemediationPlan, ApprovalRequestBody,
}

abbrev waiting : Incident
waiting = record {
  id = 3;
  resource_id = 9;
  correlation_key = "demo-api:down";
  state = pending_approval;
  severity = high;
  version = 5;
  attempts = 0;
  retry_limit = 2;
  approval_required = true;
  updated_at = 1000;
  resolved_at = none;
}

abbrev plan : RemediationPlan
plan = record { id = 7; incident_id = 3; version = 1; content_hash = some "ab12"; approved = false }

abbrev records : Records
records = record {
  control = record { incidents = waiting ∷ []; outbox = [] };
  plans = plan ∷ [];
  approvals = [];
  escalations = [];
}

abbrev request : Request
request = record {
  user_id = 2;
  username = "op";
  is_allowed = true;
  now = 1100;
  fresh = 70;
  fresh_event = 71;
  fresh_record = 72;
}

abbrev body : ApprovalRequestBody
body = record {
  decision = approve;
  expected_incident_version = 5;
  plan_version = 1;
  content_hash = some "ab12";
  rejection_reason = none;
}

decidable : IsDecidable request 3 body records plan waiting
unfolding is_reject lacks_reason find_incident find_plan hash_mismatch find_approval latest
    is_of_plan
decidable = record {
  allowed = refl;
  reason = refl;
  here = refl;
  its_plan = refl;
  digest = refl;
  undecided = refl;
  in_time = ground arith;
  waits = refl;
  current = refl;
}

open_to : IsOpenTo request 3 body records plan waiting
open_to = (IsDecidable-IsOpenTo request 3 body records plan waiting).0 decidable

submit-keeps_example :
    let r = submit_approval request 3 body records in
    IsKept request 3 body records r.0 plan waiting r.1
submit-keeps_example = submit-keeps request 3 body records plan waiting open_to

submit-changes_iff_example :
    ((submit_approval request 3 body records).0 ≢ records)
    ↔ ((p : RemediationPlan) × (x : Incident) × IsOpenTo request 3 body records p x)
submit-changes_iff_example = submit-changes_iff request 3 body records

abbrev intent : ExecutionIntent
intent = record {
  incident_id = 3;
  plan_id = 7;
  plan_version = 1;
  step_id = 8;
  resource_id = 9;
  container_id = "0123456789ab";
  binding_generation = 1;
  service_name = "demo-api";
  idempotency_key = "exec:3:1:8:1";
}

submit-grant_example :
    (check_grant (granted_approval intent (submit_approval request 3 body records).0.approvals) 2000
      ≡ none)
    ↔ (2000 < 1100 + grant_window)
submit-grant_example =
    submit-grant request 3 body records plan waiting decidable intent 2000 refl refl refl

abbrev second : Request
second = record request { user_id = 4; username = "op2"; now = 9000; fresh = 80 }

abbrev against : ApprovalRequestBody
against = record body { decision = reject; rejection_reason = some "too risky" }

submit-repeats_example :
    let before = (submit_approval request 3 body records).0 in
    let again = submit_approval second 3 against before in
    (again.0 ≡ before)
    × (reject ≡ approve
        → (a : ApprovalResponse) × (again.1 ≡ replied a)
          × (a.id ≡ 70)
          × (a.decision ≡ decision_value approve)
          × (a.expires_at ≡ 1100 + grant_window))
    × (reject ≢ approve → again.1 ≡ refused conflict)
unfolding is_reject lacks_reason is_blank strip strip_start strip_end is_space hash_mismatch
submit-repeats_example =
    submit-repeats request 3 body records plan waiting decidable second against refl refl refl refl

-- Past the deadline the caller is told that the incident has been escalated; it still waits.
abbrev late : Request
late = record request { now = 2801 }

expired_run : submit_approval late 3 body records ≡ (records, refused gone)
unfolding submit_approval is_reject unit_of_work submit_body find_incident find_plan hash_mismatch
    find_approval latest decide is_expired expire is_pending_approval transition transition_between
    plan_transition check can_move breaks_approval is_planned is_escalated is_approved is_resolved
    is_retry commit_transition update_incident apply_changes changes_for create_escalation_record
expired_run = refl
