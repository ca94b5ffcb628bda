-- ===== src/Approvals/Submit/Lasting.antt =====
-- What a recorded decision is good for later: the adapter's check of the grant, and requests that repeat or
-- contradict it.
use self_healing_agent.Approvals.Latest.{latest-only, latest-none, find-true, keep-stronger}
use self_healing_agent.Approvals.Submit.Refused.{replay-same}
use self_healing_agent.Adapter.Intent.{ExecutionIntent}
use self_healing_agent.Adapter.Precheck.{check_grant, granted_approval}
use self_healing_agent.Approvals.Submit.Granted.{row_of, submit-decides, IsDecided, IsDecidable}
use self_healing_agent.Incident.Store.{Incident}
use self_healing_agent.Approvals.Submit.{
  Reply, response_of, replay, reject, unit_of_work, Decision, submit_body, conflict, refused,
  replied, ApprovalResponse, hash_mismatch, lacks_reason, is_reject, grant_window, approve,
  decision_value, recorded_approval, find_approval, submit_approval, Records, mark_approved,
  ApprovalRequestBody, RemediationPlan, Request, find_plan,
}
use self_healing_agent.Approvals.Store.{record_approval, is_of_plan, Approval}
use self_healing_agent.Prelude.{
  ◌≢◌, false, sym, eq→str_eq, str_eq, ◌+◌, ◌<◌, ◌↔◌, ◌&&◌, ◌==◌, subst, inr, ap, inl, Bool-cases,
  arith, ◌∙◌, [], ◌∷◌, keep, ℕ, true, List, Bool, refl, none, ◌≡◌, some,
}

-- The plan is found after the approval as before, with its identifier and its digest.
record IsSamePlan (plans : List RemediationPlan) (i v : ℕ) (plan : RemediationPlan) : Type 0 where
  new : RemediationPlan
  here : find_plan i v plans ≡ some new
  its_id : new.id ≡ plan.id
  digest : new.content_hash ≡ plan.content_hash

mark_approved-IsSamePlan :
    (plans : List RemediationPlan) (i v id : ℕ) (plan : RemediationPlan)
    → find_plan i v plans ≡ some plan
    → IsSamePlan (mark_approved id plans) i v plan
unfolding find_plan mark_approved
mark_approved-IsSamePlan [] i v id plan h = absurd (ground (arith, h))
mark_approved-IsSamePlan (p ∷ plans) i v id plan h =
    elim (Bool-cases (p.incident_id == i && p.version == v)) [
      | inl hit ↦
          let same : p ≡ plan = ground (arith, h, hit) in
          elim (Bool-cases (p.id == id)) [
            | inl marked ↦ record {
              new = record p { approved = true };
              here = ground (arith, hit, marked);
              its_id = ap (λ (q : RemediationPlan). q.id) same;
              digest = ap (λ (q : RemediationPlan). q.content_hash) same;
            }
            | inr other ↦ record {
              new = p;
              here = ground (arith, hit, other);
              its_id = ap (λ (q : RemediationPlan). q.id) same;
              digest = ap (λ (q : RemediationPlan). q.content_hash) same;
            }
          ]
      | inr miss ↦
          let rest = mark_approved-IsSamePlan plans i v id plan (ground (arith, h, miss)) in
          record {
            new = rest.new;
            here = elim (Bool-cases (p.id == id)) [
              | inl marked ↦ ground (arith, miss, marked, rest.here)
              | inr other ↦ ground (arith, miss, other, rest.here)
            ];
            its_id = rest.its_id;
            digest = rest.digest;
          }
    ]

decision_value-apart :
    (a b : Decision) → a ≢ b → str_eq (decision_value a) (decision_value b) ≡ false
unfolding decision_value
decision_value-apart approve approve n = absurd (n refl)
decision_value-apart approve reject n = refl
decision_value-apart reject approve n = refl
decision_value-apart reject reject n = absurd (n refl)

module _ (request : Request) (i : ℕ) (body : ApprovalRequestBody) (db : Records)
    (plan : RemediationPlan) (incident : Incident)
    (d : IsDecidable request i body db plan incident) where
  abbrev after : Records
  after = (submit_approval request i body db).0

  r : IsDecided request i body db after plan incident (submit_approval request i body db).1
  r = submit-decides request i body db plan incident d

  asked_version : plan.version ≡ body.plan_version
  unfolding find_plan
  asked_version =
      let good =
        find-true (λ (p : RemediationPlan). p.incident_id == i && p.version == body.plan_version)
          db.plans plan d.its_plan in
      ground (arith, good)

  none_before : keep (λ (a : Approval). is_of_plan plan.id body.plan_version a) db.approvals ≡ []
  unfolding find_approval
  none_before =
      latest-none (λ (a : Approval). a.created_at)
        (keep (λ (a : Approval). is_of_plan plan.id body.plan_version a) db.approvals) d.undecided

  grant_found :
      (intent : ExecutionIntent)
      → body.decision ≡ approve
      → intent.plan_id ≡ plan.id
      → intent.plan_version ≡ plan.version
      → granted_approval intent after.approvals ≡ some (row_of request body plan)
  unfolding granted_approval is_of_plan recorded_approval record_approval decision_value
  grant_found intent approves its_plan its_version =
      let q : Approval → Bool = λ (a : Approval).
        is_of_plan intent.plan_id intent.plan_version a && str_eq a.decision "APPROVE" in
      let none_kept =
        keep-stronger (λ (a : Approval). is_of_plan plan.id body.plan_version a) q
          (λ a h. ground (arith, h, its_plan, its_version, asked_version)) db.approvals
          none_before in
      let text : decision_value body.decision ≡ "APPROVE" = ap decision_value approves in
      let word = eq→str_eq (decision_value body.decision) "APPROVE" text in
      let good : q (row_of request body plan) ≡ true =
        ground (arith, its_plan, its_version, word) in
      ap (granted_approval intent) r.recorded
      ∙ latest-only (λ (a : Approval). a.created_at) q db.approvals (row_of request body plan)
          none_kept good

  -- After an approval the adapter accepts the grant for this plan version exactly until it expires, which is
  -- 29 minutes and 55 seconds after the decision.
  pub submit-grant :
      (intent : ExecutionIntent) (at : ℕ)
      → body.decision ≡ approve
      → intent.plan_id ≡ plan.id
      → intent.plan_version ≡ plan.version
      → (check_grant (granted_approval intent (submit_approval request i body db).0.approvals) at
          ≡ none)
        ↔ (at < request.now + grant_window)
  unfolding check_grant recorded_approval record_approval
  submit-grant intent at approves its_plan its_version =
      let found = grant_found intent approves its_plan its_version in
      (λ h. ground (arith, h, found), λ lt. ground (arith, lt, found))

  plan_after : IsSamePlan after.plans i body.plan_version plan
  plan_after =
      subst (λ ps. IsSamePlan ps i body.plan_version plan) (sym r.plans)
        (elim (Bool-cases (is_reject body.decision)) [
          | inl rejects ↦
              rw rejects (record { new = plan; here = d.its_plan; its_id = refl; digest = refl })
          | inr approves ↦
              rw approves
                (mark_approved-IsSamePlan db.plans i body.plan_version plan.id plan d.its_plan)
        ])

  approval_after :
      (p : RemediationPlan)
      → p.id ≡ plan.id
      → find_approval p body.plan_version after.approvals ≡ some (row_of request body plan)
  unfolding find_approval is_of_plan recorded_approval record_approval
  approval_after p same =
      let q : Approval → Bool = λ (a : Approval). is_of_plan p.id body.plan_version a in
      let none_kept : keep q db.approvals ≡ [] =
        keep-stronger (λ (a : Approval). is_of_plan plan.id body.plan_version a) q
          (λ a h. ground (arith, h, same)) db.approvals none_before in
      let good : q (row_of request body plan) ≡ true = ground (arith, same, asked_version) in
      ap (find_approval p body.plan_version) r.recorded
      ∙ latest-only (λ (a : Approval). a.created_at) q db.approvals (row_of request body plan)
          none_kept good

  repeat_run :
      (later : Request) (body' : ApprovalRequestBody)
      → later.is_allowed ≡ true
      → (is_reject body'.decision && lacks_reason body'.rejection_reason) ≡ false
      → body'.plan_version ≡ body.plan_version
      → hash_mismatch body'.content_hash plan.content_hash ≡ false
      → submit_approval later i body' after
        ≡ unit_of_work after
            (replay later body' after plan_after.new r.updated (row_of request body plan))
  unfolding submit_approval submit_body
  repeat_run later body' allowed reason same_version digest =
      let p = plan_after.new in
      let found : find_plan i body'.plan_version after.plans ≡ some p =
        rw same_version plan_after.here in
      let same_digest : hash_mismatch body'.content_hash p.content_hash ≡ false =
        rw plan_after.digest digest in
      let row : find_approval p body'.plan_version after.approvals
          ≡ some (row_of request body plan) =
        rw same_version (approval_after p plan_after.its_id) in
      ground (arith, allowed, reason, r.moved.stored, found, same_digest, row)

  -- Where a request has decided, a later one of any user for the same plan version, with the digest of the plan
  -- and with a reason where it rejects, changes nothing; it is answered with the recorded approval where it
  -- has the same decision, and refused with a conflict where it has the other.
  pub submit-repeats :
      (later : Request) (body' : ApprovalRequestBody)
      → later.is_allowed ≡ true
      → (is_reject body'.decision && lacks_reason body'.rejection_reason) ≡ false
      → body'.plan_version ≡ body.plan_version
      → hash_mismatch body'.content_hash plan.content_hash ≡ false
      → let again = submit_approval later i body' (submit_approval request i body db).0 in
        (again.0 ≡ (submit_approval request i body db).0)
        × (body'.decision ≡ body.decision
            → (a : ApprovalResponse) × (again.1 ≡ replied a)
              × (a.id ≡ request.fresh)
              × (a.decision ≡ decision_value body.decision)
              × (a.expires_at ≡ request.now + grant_window))
        × (body'.decision ≢ body.decision → again.1 ≡ refused conflict)
  unfolding unit_of_work replay response_of recorded_approval record_approval
  submit-repeats later body' allowed reason same_version digest =
      let run = repeat_run later body' allowed reason same_version digest in
      let kept =
        replay-same later body' after plan_after.new r.updated (row_of request body plan) in
      (
        ap (λ (z : Records × Reply). z.0) run ∙ kept,
        (λ same.
            let text = ap decision_value (sym same) in
            let word =
              eq→str_eq (decision_value body.decision) (decision_value body'.decision) text in
            (
              response_of later plan_after.new (row_of request body plan) r.updated,
              ground (arith, run, word),
              refl,
              refl,
              refl,
            )),
        λ other.
            let word = decision_value-apart body.decision body'.decision (λ e. other (sym e)) in
            ground (arith, run, word),
      )
