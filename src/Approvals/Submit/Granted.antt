-- ===== src/Approvals/Submit/Granted.antt =====
-- Which requests record a decision, what they leave, and what the adapter makes of the grant.
use self_healing_agent.Incident.Transition.Laws.{
  transition-effect, transition-ok_iff, IsLegal, IsMoved,
}
use self_healing_agent.Incident.Store.{ok, Db, find_incident, Incident}
use self_healing_agent.Incident.Transition.{transition, breaks_approval}
use self_healing_agent.Approvals.Store.{Approval, record_approval}
use self_healing_agent.Incident.States.{pending_approval, is_retry, is_planned, can_move}
use self_healing_agent.Prelude.{
  ap, sym, List, subst, [], ◌+◌, arith, ◌∷◌, false, ◌++◌, if◌then◌else◌, ◌&&◌, true, ℕ, refl, none,
  ◌≡◌, some, ◌≤◌,
}
use self_healing_agent.Approvals.Submit.{
  create_escalation_record, refused, is_pending_approval, is_expired, ApprovalResponse, decide,
  decided_records, submit_body, unit_of_work, submit_approval, recorded_approval, target_of,
  response_of, replied, mark_approved, request_window, find_approval, hash_mismatch, find_plan,
  lacks_reason, reject, approve, Reply, is_reject, Records, RemediationPlan, Decision,
  ApprovalRequestBody, record_decision, Request,
}

-- A request that may decide: it is let through and has a reason to reject; the incident waits for approval at the
-- version that the request expects, for no more than half an hour; the plan version is the incident's, with the
-- digest that was seen, and undecided.
pub record IsDecidable (request : Request) (i : ℕ) (body : ApprovalRequestBody) (db : Records)
    (plan : RemediationPlan) (incident : Incident) : Type 0 where
  pub allowed : request.is_allowed ≡ true
  pub reason : (is_reject body.decision && lacks_reason body.rejection_reason) ≡ false
  pub here : find_incident i db.control.incidents ≡ some incident
  pub its_plan : find_plan i body.plan_version db.plans ≡ some plan
  pub digest : hash_mismatch body.content_hash plan.content_hash ≡ false
  pub undecided : find_approval plan body.plan_version db.approvals ≡ none
  pub in_time : request.now ≤ incident.updated_at + request_window
  pub waits : incident.state ≡ pending_approval
  pub current : incident.version ≡ body.expected_incident_version

-- The row of a decision.
abbrev pub row_of : Request → ApprovalRequestBody → RemediationPlan → Approval
row_of request body plan = (recorded_approval request body plan []).1

-- From PENDING_APPROVAL both targets are legal at the current version.
decision-IsLegal :
    (incident : Incident) (d : Decision)
    → incident.state ≡ pending_approval
    → IsLegal incident incident.version (target_of d)
unfolding target_of can_move breaks_approval is_planned is_retry
decision-IsLegal incident approve waits = record {
  current = refl;
  edge = ground (arith, waits);
  approval = ground (arith, waits);
  budget = λ h. absurd (ground (arith, waits, h));
}
decision-IsLegal incident reject waits = record {
  current = refl;
  edge = ground (arith, waits);
  approval = ground (arith, waits);
  budget = λ h. absurd (ground (arith, waits, h));
}

-- What a recorded decision leaves.
pub record IsDecided (request : Request) (i : ℕ) (body : ApprovalRequestBody) (db db' : Records)
    (plan : RemediationPlan) (incident : Incident) (reply : Reply) : Type 0 where
  pub updated : Incident
  pub moved :
      IsMoved db.control db'.control i incident.version
        (target_of body.decision)
        request.now
        request.fresh_event
        updated
  pub recorded : db'.approvals ≡ db.approvals ++ row_of request body plan ∷ []
  pub plans :
      db'.plans ≡ (if is_reject body.decision then db.plans else mark_approved plan.id db.plans)
  pub escalations : db'.escalations ≡ (
      if is_reject body.decision
      then create_escalation_record request.fresh_record i "PLAN_REJECTED" db.escalations
      else db.escalations)
  pub answer : reply ≡ replied (response_of request plan (row_of request body plan) updated)

recorded_rows :
    (request : Request) (body : ApprovalRequestBody) (plan : RemediationPlan) (rows : List Approval)
    → recorded_approval request body plan rows
      ≡ (rows ++ row_of request body plan ∷ [], row_of request body plan)
unfolding recorded_approval record_approval
recorded_rows request body plan rows = refl

record_decision-run :
    (request : Request) (i : ℕ) (body : ApprovalRequestBody) (db : Records) (plan : RemediationPlan)
    (incident updated : Incident) (control : Db)
    → transition db.control i incident.version
        (target_of body.decision)
        request.now
        request.fresh_event
      ≡ ok (control, updated)
    → record_decision request i body db plan incident ≡ (
      decided_records request i body db plan control,
      replied
          (response_of request plan (recorded_approval request body plan db.approvals).1 updated),
    )
unfolding record_decision
record_decision-run request i body db plan incident updated control run =
    rw (run, record_decision) refl

record_decision-effect :
    (request : Request) (i : ℕ) (body : ApprovalRequestBody) (db : Records) (plan : RemediationPlan)
    (incident : Incident)
    → find_incident i db.control.incidents ≡ some incident
    → incident.state ≡ pending_approval
    → let r = record_decision request i body db plan incident in
      IsDecided request i body db r.0 plan incident r.1
unfolding decided_records
record_decision-effect request i body db plan incident here waits =
    let target = target_of body.decision in
    let ((control, updated), run) =
      (transition-ok_iff db.control i incident.version target request.now request.fresh_event).1
        (incident, here, decision-IsLegal incident body.decision waits) in
    let rows = recorded_rows request body plan db.approvals in
    subst (λ (r : Records × Reply). IsDecided request i body db r.0 plan incident r.1)
      (sym (record_decision-run request i body db plan incident updated control run))
      (record {
        updated = updated;
        moved =
            transition-effect db.control i incident.version target request.now request.fresh_event
              control updated run;
        recorded = ap (λ (r : List Approval × Approval). r.0) rows;
        plans = refl;
        escalations = refl;
        answer =
            ap (λ (r : List Approval × Approval). replied (response_of request plan r.1 updated))
              rows;
      })

submit_body-decide :
    (request : Request) (i : ℕ) (body : ApprovalRequestBody) (db : Records) (plan : RemediationPlan)
    (incident : Incident)
    → IsDecidable request i body db plan incident
    → submit_body request i body db ≡ record_decision request i body db plan incident
unfolding submit_body decide is_expired is_pending_approval
submit_body-decide request i body db plan incident d =
    ground (arith, d.here, d.its_plan, d.digest, d.undecided, d.in_time, d.waits, d.current)

unit_of_work-replied :
    (before : Records) (r : Records × Reply) (a : ApprovalResponse)
    → r.1 ≡ replied a
    → unit_of_work before r ≡ r
unfolding unit_of_work
unit_of_work-replied before (after, replied b) a h = refl
unit_of_work-replied before (after, refused e) a h = absurd (ground (arith, h))

pub submit-decides :
    (request : Request) (i : ℕ) (body : ApprovalRequestBody) (db : Records) (plan : RemediationPlan)
    (incident : Incident)
    → IsDecidable request i body db plan incident
    → let r = submit_approval request i body db in IsDecided request i body db r.0 plan incident r.1
unfolding submit_approval
submit-decides request i body db plan incident d =
    let effect = record_decision-effect request i body db plan incident d.here d.waits in
    let same = submit_body-decide request i body db plan incident d in
    let all : submit_approval request i body db ≡ record_decision request i body db plan incident =
      let kept =
        unit_of_work-replied db (record_decision request i body db plan incident)
          (response_of request plan (row_of request body plan) effect.updated) effect.answer in
      ground (arith, d.allowed, d.reason, same, kept) in
    subst (λ (r : Records × Reply). IsDecided request i body db r.0 plan incident r.1) (sym all)
      effect
