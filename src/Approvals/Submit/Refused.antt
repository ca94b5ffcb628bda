-- ===== src/Approvals/Submit/Refused.antt =====
-- Which requests change nothing.
use self_healing_agent.Approvals.Store.{Approval}
use self_healing_agent.Incident.Store.{find_incident, Result-cases, Incident}
use self_healing_agent.Incident.States.{pending_approval, IncidentState}
use self_healing_agent.Prelude.{
  ==→eq, length-append, ◌∙◌, sym, length, Option-cases, ap, ◌==◌, ◌&&◌, ◌∷◌, [], inl, inr, ◌+◌,
  arith, ◌⊎◌, Bool-cases, ◌≢◌, true, ℕ, ◌≡◌, ◌↔◌, ◌≤◌,
}
use self_healing_agent.Approvals.Submit.{
  find_approval, hash_mismatch, find_plan, lacks_reason, escalated, transition, is_reject, replied,
  request_window, is_expired, ApiError, submit_body, Reply, decide, RemediationPlan,
  submit_approval, Records, ApprovalRequestBody, is_pending_approval, expire, replay, unit_of_work,
  Request, gone, repository, refused,
}
use self_healing_agent.Approvals.Submit.Granted.{row_of, IsDecidable, submit-decides}

expire-refused :
    (request : Request) (i : ℕ) (db : Records) (incident : Incident)
    → (e : ApiError) × ((expire request i db incident).1 ≡ refused e)
unfolding expire
expire-refused request i db incident = elim (Bool-cases (is_pending_approval incident.state)) [
  | inr other ↦ (gone, ground (arith, other))
  | inl waits ↦
      elim (Result-cases
        (transition db.control i incident.version escalated request.now request.fresh_event)) [
          | inl (e, bad) ↦ (repository e, ground (arith, waits, bad))
          | inr ((control, updated), run) ↦ (gone, ground (arith, waits, run))
        ]
]

unit_of_work-refused :
    (before : Records) (r : Records × Reply) (e : ApiError)
    → r.1 ≡ refused e
    → unit_of_work before r ≡ (before, refused e)
unfolding unit_of_work
unit_of_work-refused before (after, replied b) e h = absurd (ground (arith, h))
unit_of_work-refused before (after, refused b) e h = ground (arith, h)

pub replay-same :
    (request : Request) (body : ApprovalRequestBody) (db : Records) (plan : RemediationPlan)
    (incident : Incident) (a : Approval)
    → (unit_of_work db (replay request body db plan incident a)).0 ≡ db
unfolding replay unit_of_work
replay-same request body db plan incident a = ground arith

is_pending_approval-true : (s : IncidentState) → is_pending_approval s ≡ true → s ≡ pending_approval
unfolding is_pending_approval
is_pending_approval-true s h = ground arith

module _ (request : Request) (i : ℕ) (body : ApprovalRequestBody) (db : Records) where
  -- What a request meets where it neither is turned away nor decides.
  decide-otherwise :
      (plan : RemediationPlan) (incident : Incident)
      → ((unit_of_work db (decide request i body db plan incident)).0 ≡ db)
        ⊎ ((request.now ≤ incident.updated_at + request_window)
            × (incident.state ≡ pending_approval)
            × (incident.version ≡ body.expected_incident_version))
  unfolding decide is_expired unit_of_work
  decide-otherwise plan incident = elim (Bool-cases (is_expired incident request.now)) [
    | inl late ↦
        let (e, raises) = expire-refused request i db incident in
        let back = unit_of_work-refused db (expire request i db incident) e raises in
        inl (ground (arith, late, back))
    | inr in_time ↦ elim (Bool-cases (is_pending_approval incident.state)) [
      | inr other ↦ inl (ground (arith, in_time, other, unit_of_work))
      | inl waits ↦ elim (Bool-cases (incident.version == body.expected_incident_version)) [
        | inr old ↦ inl (ground (arith, in_time, waits, old, unit_of_work))
        | inl current ↦ inr (
          ground (arith, in_time),
          is_pending_approval-true incident.state waits,
          ==→eq incident.version body.expected_incident_version current,
        )
      ]
    ]
  ]

  submit-otherwise :
      ((submit_approval request i body db).0 ≡ db)
      ⊎ ((plan : RemediationPlan) × (incident : Incident) × IsDecidable request i body db plan
            incident)
  unfolding submit_approval submit_body unit_of_work
  submit-otherwise = elim (Bool-cases request.is_allowed) [
    | inr limited ↦ inl (ground (arith, limited))
    | inl allowed ↦
        elim (Bool-cases (is_reject body.decision && lacks_reason body.rejection_reason)) [
          | inl bare ↦ inl (ground (arith, allowed, bare))
          | inr reason ↦ elim (Option-cases (find_incident i db.control.incidents)) [
            | inl unknown ↦ inl (ground (arith, allowed, reason, unknown))
            | inr (incident, here) ↦ elim (Option-cases (find_plan i body.plan_version db.plans)) [
              | inl no_plan ↦ inl (ground (arith, allowed, reason, here, no_plan))
              | inr (plan, its) ↦
                  elim (Bool-cases (hash_mismatch body.content_hash plan.content_hash)) [
                    | inl other ↦ inl (ground (arith, allowed, reason, here, its, other))
                    | inr digest ↦
                        elim (Option-cases (find_approval plan body.plan_version db.approvals)) [
                          | inr (a, decided) ↦
                              let back = replay-same request body db plan incident a in
                              inl
                                (ground (arith, allowed, reason, here, its, digest, decided, back))
                          | inl undecided ↦ elim (decide-otherwise plan incident) [
                            | inl back ↦ inl (
                                ground (arith, allowed, reason, here, its, digest, undecided, back))
                            | inr (in_time, waits, current) ↦ inr (
                              plan,
                              incident,
                              record {
                                allowed = allowed;
                                reason = reason;
                                here = here;
                                its_plan = its;
                                digest = digest;
                                undecided = undecided;
                                in_time = in_time;
                                waits = waits;
                                current = current;
                              },
                            )
                          ]
                        ]
                  ]
            ]
          ]
        ]
  ]

pub submit-decides_iff :
    (request : Request) (i : ℕ) (body : ApprovalRequestBody) (db : Records)
    → ((submit_approval request i body db).0 ≢ db) ↔ (
        (plan : RemediationPlan) × (incident : Incident) × IsDecidable request i body db plan
          incident)
submit-decides_iff request i body db = (
  (λ changed. elim (submit-otherwise request i body db) [
    | inl same ↦ absurd (changed same)
    | inr d ↦ d
  ]),
  λ (plan, incident, d) same.
      let r = submit-decides request i body db plan incident d in
      (let new = row_of request body plan ∷ [] in
        let longer = ap length (sym (ap (λ (z : Records). z.approvals) same) ∙ r.recorded) in
        omega (arith, longer, length-append db.approvals new)),
)
