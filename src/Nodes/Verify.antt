-- ===== src/Nodes/Verify.antt =====
-- `verify_node`, from the verdict on, with a session factory.
pub mod Ends
pub mod Verdicts
use self_healing_agent.Incident.States.{
  critical, medium, escalated, Severity, verifying, diagnosed, IncidentState,
}
use self_healing_agent.Prelude.{
  ◌&&◌, if◌then◌else◌, ◌+◌, ◌++◌, Bool, String, Option, ℕ, List, none, some, ◌≡◌, [], ◌∷◌, false,
  true,
}
use self_healing_agent.Nodes.Store.{Tables, move_where, create_attention_item}
use self_healing_agent.Approvals.Submit.{create_escalation_record}
use self_healing_agent.Incident.Store.{
  Incident, find_incident, ◌>>=◌, Failure, Result, ok, err, conflict_error,
}
use self_healing_agent.Verify.Verdict.{
  resolved, inconclusive, agent_healed, externally_recovered, RecoveryAttribution,
  VerificationVerdict,
}
use self_healing_agent.Workflow.Retries.{is_retry_eligible}
use self_healing_agent.Runtime.Schedule.{create_workflow_schedule, WorkflowSchedule}

-- The window, the score, the checks and the samples, which are only stored, are left out.
pub record VerificationResult : Type 0 where
  pub id : ℕ
  pub execution_id : ℕ
  pub incident_id : ℕ
  pub passed : Bool
  pub attempt_number : ℕ
  pub attribution : RecoveryAttribution

pub record VerifyTables : Type 0 where
  pub tables : Tables
  pub results : List VerificationResult
  pub schedules : List WorkflowSchedule

-- The keys of the state that stand in where the incident is gone, the clock, the cooldown, fresh UUIDs, and what
-- other workers have committed to the wake-ups before this node's own is.
pub record VerifyInput : Type 0 where
  pub incident_id : ℕ
  pub execution_id : ℕ
  pub version : ℕ
  pub attempts : ℕ
  pub retry_limit : ℕ
  pub cooldown_seconds : ℕ
  pub now : ℕ
  pub fresh : ℕ → ℕ
  pub others : List WorkflowSchedule → List WorkflowSchedule

-- The statuses RESOLVED, ESCALATED, COOLDOWN_SCHEDULED and VERIFICATION_ESCALATED, with which the other keys of
-- the update go along.
pub data VerifyStatus : Type 0 where
  resolved_status escalated_status cooldown_scheduled verification_escalated : VerifyStatus

unfoldable pub is_verifying : IncidentState → Bool
is_verifying verifying = true
is_verifying _ = false

unfoldable pub is_agent_healed : RecoveryAttribution → Bool
is_agent_healed agent_healed = true
is_agent_healed _ = false

-- `attribution_str in {"EXTERNALLY_RECOVERED", "INCONCLUSIVE"}`
unfoldable pub is_outside : RecoveryAttribution → Bool
is_outside externally_recovered = true
is_outside inconclusive = true
is_outside agent_healed = false

-- `attempts`, `retry_limit` and `current_version`, of the incident or of the state
unfoldable pub attempts_of : VerifyInput → Option Incident → ℕ
attempts_of input none = input.attempts
attempts_of input (some x) = x.attempts

unfoldable pub retry_limit_of : VerifyInput → Option Incident → ℕ
retry_limit_of input none = input.retry_limit
retry_limit_of input (some x) = x.retry_limit

unfoldable pub version_of : VerifyInput → Option Incident → ℕ
version_of input none = input.version
version_of input (some x) = x.version

-- `record_verification_result`
unfoldable pub record_verification_result :
    VerifyInput → VerificationVerdict → ℕ → List VerificationResult → List VerificationResult
record_verification_result input verdict attempts rows =
    rows
    ++ record {
      id = input.fresh 0;
      execution_id = input.execution_id;
      incident_id = input.incident_id;
      passed = verdict.passed;
      attempt_number = attempts + 1;
      attribution = verdict.attribution;
    }
      ∷ []

-- The guarded move out of VERIFYING.
unfoldable pub leave :
    VerifyInput → IncidentState → VerifyTables → Result (VerifyTables × Option Incident)
leave input target t = do
  done ←
      move_where is_verifying input.incident_id target input.now (input.fresh 1) (t.tables).control
  ok (record t { tables = record (t.tables) { control = done.0 } }, done.1)

-- A move to ESCALATED with its two records.
unfoldable pub escalate_with :
    VerifyInput → String → Severity → String → VerifyTables → Result VerifyTables
escalate_with input root_cause severity reason t = do
  done ← leave input escalated t
  ok (record (done.0) {
    tables = record ((done.0).tables) {
      escalations =
          create_escalation_record (input.fresh 2) input.incident_id root_cause
            (t.tables).escalations;
      attention =
          create_attention_item (input.fresh 3) input.incident_id severity reason
            (t.tables).attention;
    };
  })

-- `schedule_retry_cooldown`
unfoldable pub schedule_retry_cooldown :
    VerifyInput → ℕ → List WorkflowSchedule → Result (List WorkflowSchedule)
schedule_retry_cooldown input version rows =
    elim (create_workflow_schedule (input.fresh 4) input.incident_id version
      (input.now + input.cooldown_seconds) "COOLDOWN" none rows) [
        | none ↦ err conflict_error
        | some rows' ↦ ok rows'
      ]

-- Scenario C, a retry. The wake-up is a transaction of its own, of the scheduler, that commits before the node's;
-- where it raises, so does the node, and neither writes. The node writes nothing after it.
unfoldable pub retry_later : VerifyInput → VerifyTables → Result VerifyTables
retry_later input t = do
  done ← leave input diagnosed t
  schedules ←
      schedule_retry_cooldown input (version_of input done.1) (input.others (done.0).schedules)
  ok (record (done.0) { schedules = schedules })

abbrev pub default_workflow_timeout : ℕ
default_workflow_timeout = 2700

-- With no start of the workflow given, only the attempts count.
unfoldable pub may_retry : VerifyInput → Option Incident → Bool
may_retry input inc =
    is_retry_eligible (attempts_of input inc) (retry_limit_of input inc) none input.cooldown_seconds
      0 input.now

-- The transaction, after the result is recorded.
unfoldable pub judge :
    VerifyInput
    → VerificationVerdict
    → Option Incident
    → VerifyTables
    → Result (VerifyTables × VerifyStatus)
judge input verdict inc t =
    if verdict.passed && is_agent_healed verdict.attribution
    then (do done ← leave input IncidentState.resolved t; ok (done.0, resolved_status))
    else if is_outside verdict.attribution
    then (do
      t' ←
          escalate_with input "EXTERNALLY_RECOVERED" medium
            "External Recovery Not Attributable to Agent" t
      ok (t', escalated_status))
    else if may_retry input inc
    then (do t' ← retry_later input t; ok (t', cooldown_scheduled))
    else do
      t' ← escalate_with input "VERIFICATION_FAILED" critical "Remediation Verification Failed" t
      ok (t', verification_escalated)

unfoldable pub verify_node :
    VerifyInput → VerificationVerdict → VerifyTables → Result (VerifyTables × VerifyStatus)
verify_node input verdict t =
    let inc = find_incident input.incident_id ((t.tables).control).incidents in
    judge input verdict inc (record t {
      results = record_verification_result input verdict (attempts_of input inc) t.results;
    })
