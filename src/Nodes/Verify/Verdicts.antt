-- ===== src/Nodes/Verify/Verdicts.antt =====
-- What the verification node does with each verdict.
use self_healing_agent.Runtime.Schedule.{new_row}
use self_healing_agent.Incident.States.{diagnosed, escalated, IncidentState}
use self_healing_agent.Incident.Store.{ok, find_incident, Result, Incident}
use self_healing_agent.Verify.Verdict.{agent_healed, VerificationVerdict}
use self_healing_agent.Prelude.{◌≤◌, ◌++◌, ◌<◌, ◌≢◌, none, some, ◌≡◌, [], ◌∷◌, false, true, ◌+◌}
use self_healing_agent.Nodes.Verify.{
  VerificationResult, verification_escalated, cooldown_scheduled, escalated_status, resolved_status,
  VerifyStatus, record_verification_result, VerifyInput, VerifyTables,
}
use self_healing_agent.Nodes.Execute.Settled.{IsAt}

-- The row of a verdict.
abbrev pub result_of : VerifyInput → VerificationVerdict → Incident → VerificationResult
result_of input verdict x = record {
  id = input.fresh 0;
  execution_id = input.execution_id;
  incident_id = input.incident_id;
  passed = verdict.passed;
  attempt_number = x.attempts + 1;
  attribution = verdict.attribution;
}

-- How the node ends from VERIFYING.
pub record IsVerified (input : VerifyInput) (verdict : VerificationVerdict) (t : VerifyTables)
    (x : Incident) (r : Result (VerifyTables × VerifyStatus)) : Type 0 where
  pub after : VerifyTables
  pub status : VerifyStatus
  pub returns : r ≡ ok (after, status)
  pub recorded : after.results ≡ t.results ++ result_of input verdict x ∷ []
  pub healed :
      verdict.passed ≡ true
      → verdict.attribution ≡ agent_healed
      → (status ≡ resolved_status)
        × IsAt after.tables t.tables input.incident_id IncidentState.resolved (x.version + 1) 0
        × (after.schedules ≡ t.schedules)
  pub outside :
      verdict.attribution ≢ agent_healed
      → (status ≡ escalated_status)
        × IsAt after.tables t.tables input.incident_id escalated (x.version + 1) 1
        × (after.schedules ≡ t.schedules)
  pub retried :
      verdict.passed ≡ false
      → verdict.attribution ≡ agent_healed
      → x.attempts < x.retry_limit
      → (status ≡ cooldown_scheduled)
        × IsAt after.tables t.tables input.incident_id diagnosed (x.version + 1) 0
        × (((y : Incident) × (find_incident input.incident_id ((after.tables).control).incidents
                ≡ some y)
              × (y.attempts ≡ x.attempts + 1))
            × (after.schedules
                ≡ input.others t.schedules
                  ++ new_row
                      (input.fresh 4)
                      input.incident_id
                      (x.version + 1)
                      (input.now + input.cooldown_seconds)
                      "COOLDOWN"
                      none
                    ∷ []))
  pub exhausted :
      verdict.passed ≡ false
      → verdict.attribution ≡ agent_healed
      → x.retry_limit ≤ x.attempts
      → (status ≡ verification_escalated)
        × IsAt after.tables t.tables input.incident_id escalated (x.version + 1) 1
        × (after.schedules ≡ t.schedules)

-- The tables that the verdict is judged on.
abbrev recorded : VerifyInput → VerificationVerdict → VerifyTables → Incident → VerifyTables
recorded input verdict t x = record t {
  results = record_verification_result input verdict x.attempts t.results;
}
