-- ===== src/Approvals/Submit/Contract.antt =====
-- `submit_approval`, with none of the tests and rows of the code in what is said of it.
use self_healing_agent.Incident.Transition.Contract.{IsWritten, moved-IsWritten}
use self_healing_agent.Approvals.Store.{Approval, is_of_plan, latest, record_approval}
use self_healing_agent.Approvals.Latest.{latest-none, find-true}
use self_healing_agent.Approvals.Submit.{
  create_escalation_record, create_escalation_record, create_escalation_record,
  create_escalation_record, create_escalation_record, create_escalation_record,
  create_escalation_record, create_escalation_record, create_escalation_record,
  create_escalation_record, create_escalation_record, create_escalation_record, Records,
  RemediationPlan, Request, ApprovalRequestBody, ApprovalResponse, Reply, replied, approve, reject,
  is_reject, lacks_reason, hash_mismatch, find_plan, find_approval, submit_approval, request_window,
  target_of, recorded_approval, response_of, decision_value, stripped, mark_approved,
  create_escalation_record,
}
use self_healing_agent.Approvals.Submit.Granted.{IsDecidable, row_of, submit-decides}
use self_healing_agent.Approvals.Submit.Refused.{submit-decides_iff}
use self_healing_agent.Incident.Store.{find_incident, Incident}
use self_healing_agent.Incident.States.{pending_approval, approved, escalated}
use self_healing_agent.Prelude.{
  subst, ◌∙◌, sym, ◌&&◌, ◌==◌, Bool-cases, inl, inr, Option-cases, true, false, some, none, ◌≡◌,
  ◌≢◌, ◌≤◌, ◌+◌, ◌↔◌, ℕ, String, List, [], ◌∷◌, ◌++◌, keep, refl, arith, All, ap, map,
  if◌then◌else◌, str_eq, str_eq→eq, eq→str_eq, Option,
}
use self_healing_agent.Text.{is_blank, strip}

-- A request that may decide: it is let through, and a rejection gives a reason that is not blank; the incident
-- waits for approval at the version that the request expects, for no more than half an hour; the plan is the
-- incident's in the version asked for; its digest is the one that was seen, where both are given; and no approval
-- is stored for the plan in this version.
pub record IsOpenTo (request : Request) (i : ℕ) (body : ApprovalRequestBody) (db : Records)
    (plan : RemediationPlan) (incident : Incident) : Type 0 where
  pub allowed : request.is_allowed ≡ true
  pub reason :
      body.decision ≡ reject
      → (s : String) × (body.rejection_reason ≡ some s) × (is_blank s ≡ false)
  pub here : find_incident i db.control.incidents ≡ some incident
  pub its_plan : find_plan i body.plan_version db.plans ≡ some plan
  pub its_incident : plan.incident_id ≡ i
  pub its_version : plan.version ≡ body.plan_version
  pub digest :
      (h k : String)
      → body.content_hash ≡ some h
      → plan.content_hash ≡ some k
      → h ≢ ""
      → k ≢ ""
      → h ≡ k
  pub undecided :
      All
        (λ (a : Approval). (a.plan_id ≡ plan.id) × (a.plan_version ≡ body.plan_version) → ⊥)
        db.approvals
  pub in_time : request.now ≤ incident.updated_at + request_window
  pub waits : incident.state ≡ pending_approval
  pub current : incident.version ≡ body.expected_incident_version

reason_iff :
    (body : ApprovalRequestBody)
    → ((is_reject body.decision && lacks_reason body.rejection_reason) ≡ false) ↔ (
        body.decision ≡ reject
        → (s : String) × (body.rejection_reason ≡ some s) × (is_blank s ≡ false))
unfolding is_reject lacks_reason
reason_iff body = (
  (λ h r. elim (Option-cases body.rejection_reason) [
    | inl silent ↦ absurd (ground (arith, h, r, silent))
    | inr (s, given) ↦ (s, given, ground (arith, h, r, given))
  ]),
  λ f. elim (Bool-cases (is_reject body.decision)) [
    | inr other ↦ ground (arith, other)
    | inl rejects ↦
        let (s, given, full) = f (ground (arith, rejects)) in ground (arith, given, full)
  ],
)

digest_iff :
    (a b : Option String)
    → (hash_mismatch a b ≡ false)
      ↔ ((h k : String) → a ≡ some h → b ≡ some k → h ≢ "" → k ≢ "" → h ≡ k)
unfolding hash_mismatch
digest_iff none b = ((λ m h k e. absurd (ground (arith, e))), λ f. refl)
digest_iff (some a) none = ((λ m h k e e'. absurd (ground (arith, e'))), λ f. refl)
digest_iff (some a) (some b) = (
  (λ m h k e e' n n'.
      let ah : a ≡ h = ground (arith, e) in
      let bk : b ≡ k = ground (arith, e') in
      elim (Bool-cases (str_eq a b)) [
        | inl same ↦ sym ah ∙ str_eq→eq a b same ∙ bk
        | inr apart ↦ elim (Bool-cases (str_eq a "")) [
          | inl nil ↦ absurd (n (sym ah ∙ str_eq→eq a "" nil))
          | inr full ↦ elim (Bool-cases (str_eq b "")) [
            | inl nil ↦ absurd (n' (sym bk ∙ str_eq→eq b "" nil))
            | inr full' ↦ absurd (ground (arith, m, apart, full, full'))
          ]
        ]
      ]),
  λ f. elim (Bool-cases (str_eq a "")) [
    | inl nil ↦ ground (arith, nil)
    | inr full ↦ elim (Bool-cases (str_eq b "")) [
      | inl nil ↦ ground (arith, nil)
      | inr full' ↦
          let same =
            f a b refl refl (λ e. absurd (let t = eq→str_eq a "" e in ground (arith, t, full)))
              (λ e. absurd (let t = eq→str_eq b "" e in ground (arith, t, full'))) in
          let test = eq→str_eq a b same in ground (arith, test)
    ]
  ],
)

keep-nil_iff :
    (i v : ℕ) (rows : List Approval)
    → (keep (λ (a : Approval). is_of_plan i v a) rows ≡ [])
      ↔ All (λ (a : Approval). (a.plan_id ≡ i) × (a.plan_version ≡ v) → ⊥) rows
unfolding is_of_plan
keep-nil_iff i v [] = ((λ h. tt), λ h. refl)
keep-nil_iff i v (a ∷ rows) =
    let rest = keep-nil_iff i v rows in
    (
      (λ h. elim (Bool-cases (a.plan_id == i && a.plan_version == v)) [
        | inl hit ↦ absurd (ground (arith, h, hit))
        | inr miss ↦ ((λ (e, e'). ground (arith, e, e', miss)), rest.0 (ground (arith, h, miss)))
      ]),
      λ (apart, others). elim (Bool-cases (a.plan_id == i && a.plan_version == v)) [
        | inl hit ↦ absurd (apart (ground (arith, hit), ground (arith, hit)))
        | inr miss ↦ let nil = rest.1 others in ground (arith, nil, miss)
      ],
    )

undecided_iff :
    (plan : RemediationPlan) (v : ℕ) (rows : List Approval)
    → (find_approval plan v rows ≡ none)
      ↔ All (λ (a : Approval). (a.plan_id ≡ plan.id) × (a.plan_version ≡ v) → ⊥) rows
unfolding find_approval latest
undecided_iff plan v rows =
    let kept = keep (λ (a : Approval). is_of_plan plan.id v a) rows in
    let all = keep-nil_iff plan.id v rows in
    (
      (λ h. all.0 (latest-none (λ (a : Approval). a.created_at) kept h)),
      λ h. ap (latest (λ (a : Approval). a.created_at)) (all.1 h),
    )

pub IsDecidable-IsOpenTo :
    (request : Request) (i : ℕ) (body : ApprovalRequestBody) (db : Records) (plan : RemediationPlan)
    (incident : Incident)
    → IsDecidable request i body db plan incident ↔ IsOpenTo request i body db plan incident
unfolding find_plan
IsDecidable-IsOpenTo request i body db plan incident = (
  (λ d.
      let good =
        find-true (λ (p : RemediationPlan). p.incident_id == i && p.version == body.plan_version)
          db.plans plan d.its_plan in
      record {
        allowed = d.allowed;
        reason = (reason_iff body).0 d.reason;
        here = d.here;
        its_plan = d.its_plan;
        its_incident = ground (arith, good);
        its_version = ground (arith, good);
        digest = (digest_iff body.content_hash plan.content_hash).0 d.digest;
        undecided = (undecided_iff plan body.plan_version db.approvals).0 d.undecided;
        in_time = d.in_time;
        waits = d.waits;
        current = d.current;
      }),
  λ o. record {
    allowed = o.allowed;
    reason = (reason_iff body).1 o.reason;
    here = o.here;
    its_plan = o.its_plan;
    digest = (digest_iff body.content_hash plan.content_hash).1 o.digest;
    undecided = (undecided_iff plan body.plan_version db.approvals).1 o.undecided;
    in_time = o.in_time;
    waits = o.waits;
    current = o.current;
  },
)

-- A request changes the records exactly where it may decide.
pub submit-changes_iff :
    (request : Request) (i : ℕ) (body : ApprovalRequestBody) (db : Records)
    → ((submit_approval request i body db).0 ≢ db) ↔ (
        (plan : RemediationPlan) × (incident : Incident) × IsOpenTo request i body db plan incident)
submit-changes_iff request i body db =
    let both = submit-decides_iff request i body db in
    (
      (λ h.
          let (plan, incident, d) = both.0 h in
          (plan, incident, (IsDecidable-IsOpenTo request i body db plan incident).0 d)),
      λ (plan, incident, o).
          both.1 (plan, incident, (IsDecidable-IsOpenTo request i body db plan incident).1 o),
    )

-- The row of a decision, column by column.
pub record IsRowOf (request : Request) (body : ApprovalRequestBody) (plan : RemediationPlan)
    (a : Approval) : Type 0 where
  pub id : a.id ≡ request.fresh
  pub plan_id : a.plan_id ≡ plan.id
  pub plan_version : a.plan_version ≡ plan.version
  pub approver_id : a.approver_id ≡ request.user_id
  pub created_at : a.created_at ≡ request.now
  pub expires_at : a.expires_at ≡ request.now + 1795
  pub approves : body.decision ≡ approve → (a.decision ≡ "APPROVE") × (a.rejection_reason ≡ none)
  pub rejects :
      body.decision ≡ reject
      → (s : String) → body.rejection_reason ≡ some s
      → s ≢ ""
      → (a.decision ≡ "REJECT") × (a.rejection_reason ≡ some (strip s))

row_of-IsRowOf :
    (request : Request) (body : ApprovalRequestBody) (plan : RemediationPlan)
    → IsRowOf request body plan (row_of request body plan)
unfolding recorded_approval record_approval decision_value is_reject stripped
row_of-IsRowOf request body plan = record {
  id = refl;
  plan_id = refl;
  plan_version = refl;
  approver_id = refl;
  created_at = refl;
  expires_at = omega arith;
  approves = λ e. (ground (arith, e), ground (arith, e));
  rejects = λ e s given full. elim (Bool-cases (str_eq s "")) [
    | inl nil ↦ absurd (full (str_eq→eq s "" nil))
    | inr other ↦ (ground (arith, e), ground (arith, e, given, other))
  ];
}

-- What a recorded decision leaves.
pub record IsKept (request : Request) (i : ℕ) (body : ApprovalRequestBody) (db db' : Records)
    (plan : RemediationPlan) (incident : Incident) (reply : Reply) : Type 0 where
  pub updated : Incident
  pub stored : find_incident i db'.control.incidents ≡ some updated
  pub version : updated.version ≡ incident.version + 1
  pub others :
      (j : ℕ) → j ≢ i → find_incident j db'.control.incidents ≡ find_incident j db.control.incidents
  pub approval : Approval
  pub row : IsRowOf request body plan approval
  pub recorded : db'.approvals ≡ db.approvals ++ approval ∷ []
  pub approves :
      body.decision ≡ approve
      → (updated.state ≡ approved)
        × (db'.plans
            ≡ map
                (λ (p : RemediationPlan).
                  if p.id == plan.id then record p { approved = true } else p)
                db.plans)
        × (db'.escalations ≡ db.escalations)
  pub rejects :
      body.decision ≡ reject
      → (updated.state ≡ escalated)
        × (db'.plans ≡ db.plans)
        × (db'.escalations
            ≡ db.escalations
              ++ record { id = request.fresh_record; incident_id = i; root_cause = "PLAN_REJECTED" }
                ∷ [])
  pub answer : ApprovalResponse
  pub replies : reply ≡ replied answer
  pub its_id : answer.id ≡ approval.id
  pub its_decision : answer.decision ≡ approval.decision
  pub its_expiry : answer.expires_at ≡ approval.expires_at
  pub its_approver : answer.approver ≡ request.username
  pub its_state : answer.incident_state ≡ updated.state
  pub its_incident_version : answer.incident_version ≡ updated.version

-- A request that may decide moves the incident, alone, to APPROVED or, where it rejects, to ESCALATED, at the next
-- version. It records one new approval with the decision, the approver, the stripped reason of a rejection and an
-- expiry 29 minutes and 55 seconds from now; it marks the plan as approved, or adds one record of the rejection;
-- and it answers with the approval and the incident's new state and version.
pub submit-keeps :
    (request : Request) (i : ℕ) (body : ApprovalRequestBody) (db : Records) (plan : RemediationPlan)
    (incident : Incident)
    → IsOpenTo request i body db plan incident
    → let r = submit_approval request i body db in IsKept request i body db r.0 plan incident r.1
unfolding target_of is_reject mark_approved create_escalation_record response_of
submit-keeps request i body db plan incident o =
    let d = (IsDecidable-IsOpenTo request i body db plan incident).1 o in
    let r = submit-decides request i body db plan incident d in
    let written =
      moved-IsWritten r.moved.old incident.version (target_of body.decision) request.now in
    let row =
      subst
        (λ (z : Incident).
          IsWritten r.moved.old z incident.version (target_of body.decision) request.now)
        (sym r.moved.row) written in
    record {
      updated = r.updated;
      stored = r.moved.stored;
      version = row.version;
      others = r.moved.others;
      approval = row_of request body plan;
      row = row_of-IsRowOf request body plan;
      recorded = r.recorded;
      approves = λ e. (
        row.state ∙ ap target_of e,
        r.plans ∙ ground (arith, e),
        r.escalations ∙ ground (arith, e),
      );
      rejects = λ e. (
        row.state ∙ ap target_of e,
        r.plans ∙ ground (arith, e),
        r.escalations ∙ ground (arith, e),
      );
      answer = response_of request plan (row_of request body plan) r.updated;
      replies = r.answer;
      its_id = refl;
      its_decision = refl;
      its_expiry = refl;
      its_approver = refl;
      its_state = refl;
      its_incident_version = refl;
    }
