-- ===== src/Approvals/Manager.antt =====
-- approvals/manager.py: the checks of a submission, and the two deadlines.
use self_healing_agent.Approvals.Submit.{lacks_reason}
use self_healing_agent.Prelude.{
  arith, ltb, ◌&&◌, ◌≤◌, ◌||◌, false, ◌*◌, not, if◌then◌else◌, ◌+◌, String, Option, true, ℕ, none,
  some, ◌≡◌, ◌↔◌,
}
use self_healing_agent.Text.{is_blank, upper_is}

-- The integers of a submission may be negative; the two that are tested are given by what `x >= 1` reads: a
-- value below 1 stands as 0.
pub record ApprovalSubmission : Type 0 where
  pub decision : String
  pub expected_incident_version : ℕ
  pub plan_version : ℕ
  pub rejection_reason : Option String
  pub idempotency_key : String

pub data SubmissionError : Type 0 where
  bad_decision no_reason bad_incident_version bad_plan_version bad_key : SubmissionError

-- `validate_submission`: the ValueError that it raises.
unfoldable pub validate_submission : ApprovalSubmission → Option SubmissionError
validate_submission s =
    if not (upper_is s.decision "APPROVE" || upper_is s.decision "REJECT")
    then some bad_decision
    else if upper_is s.decision "REJECT" && lacks_reason s.rejection_reason
    then some no_reason
    else if ltb s.expected_incident_version 1
    then some bad_incident_version
    else if ltb s.plan_version 1
    then some bad_plan_version
    else if is_blank s.idempotency_key
    then some bad_key
    else none

-- `calculate_request_deadline` and `calculate_grant_expiry`
unfoldable pub calculate_request_deadline : ℕ → ℕ
calculate_request_deadline from_time = from_time + 30 * 60

unfoldable pub calculate_grant_expiry : ℕ → ℕ
calculate_grant_expiry from_time = from_time + 30 * 60

-- A submission is valid exactly where it approves, or rejects with a reason that is not blank, at versions from
-- 1 on, under a key that is not blank.
pub validate_submission_iff :
    (s : ApprovalSubmission)
    → (validate_submission s ≡ none) ↔ (
        ((upper_is s.decision "APPROVE" || upper_is s.decision "REJECT") ≡ true)
        × (upper_is s.decision "REJECT" ≡ true → lacks_reason s.rejection_reason ≡ false)
        × (1 ≤ s.expected_incident_version)
        × (1 ≤ s.plan_version)
        × (is_blank s.idempotency_key ≡ false))
unfolding validate_submission
validate_submission_iff s = (λ h. ground (arith, h), λ h. ground (arith, h))
