-- ===== src/Nodes/Verify/Ends.antt =====
-- What the verification node leaves of an incident that is VERIFYING, for each verdict.
use self_healing_agent.Runtime.Schedule.{create_workflow_schedule, new_row, WorkflowSchedule}
use self_healing_agent.Incident.Transition.Laws.{moved, IsLegal}
use self_healing_agent.Approvals.Submit.{create_escalation_record}
use self_healing_agent.Incident.States.{
  diagnosed, escalated, Severity, is_retry, can_move, IncidentState, verifying, is_planned,
}
use self_healing_agent.Incident.Store.{ok, Db, find_incident, Incident}
use self_healing_agent.Incident.Transition.{changes_for, apply_changes, breaks_approval}
use self_healing_agent.Prelude.{
  [], ◌∷◌, ◌++◌, false, ◌==◌, any, none, length-append, sym, ◌∙◌, String, ap, arith, ◌<◌, some, ◌≡◌,
  refl, true, ◌+◌,
}
use self_healing_agent.Nodes.Verify.{
  version_of, schedule_retry_cooldown, retry_later, is_verifying, escalate_with, leave, VerifyInput,
  VerifyTables,
}
use self_healing_agent.Nodes.Store.{create_attention_item, transition-moves, move_where-moves}
use self_healing_agent.Nodes.Execute.Settled.{IsAt, moved-fields}

verifying-IsLegal :
    (x : Incident) (target : IncidentState)
    → x.state ≡ verifying
    → can_move verifying target ≡ true
    → (is_retry verifying target ≡ true → x.attempts < x.retry_limit)
    → IsLegal x x.version target
unfolding breaks_approval is_planned
verifying-IsLegal x target at edge budget = record {
  current = refl;
  edge = ap (λ s. can_move s target) at ∙ edge;
  approval = ground (arith, at);
  budget = λ h. budget (ap (λ s. is_retry s target) (sym at) ∙ h);
}

module _ (input : VerifyInput) (t : VerifyTables) (x : Incident)
    (here : find_incident input.incident_id ((t.tables).control).incidents ≡ some x)
    (at : x.state ≡ verifying) where
  -- The tables after the guarded move.
  record IsLeft (target : IncidentState) : Type 0 where
    after : Db
    run :
        leave input target t
        ≡ ok (
          record t { tables = record (t.tables) { control = after } },
          some (moved x x.version target input.now),
        )
    stored :
        find_incident input.incident_id after.incidents ≡ some (moved x x.version target input.now)

  leave-moves : (target : IncidentState) → IsLegal x x.version target → IsLeft target
  unfolding leave is_verifying
  leave-moves target legal =
      let m =
        transition-moves input.incident_id target input.now (input.fresh 1) (t.tables).control x
          here legal in
      let run =
        move_where-moves is_verifying input.incident_id target input.now (input.fresh 1)
          (t.tables).control x here (ground (arith, at)) m in
      record { after = m.after; run = ground (arith, run); stored = m.stored }

  pub resolves :
      (t' : VerifyTables) × (leave input IncidentState.resolved t
        ≡ ok (t', some (moved x x.version IncidentState.resolved input.now)))
      × IsAt t'.tables t.tables input.incident_id IncidentState.resolved (x.version + 1) 0
      × (t'.schedules ≡ t.schedules)
      × (t'.results ≡ t.results)
  unfolding can_move is_retry
  resolves =
      let l =
        leave-moves IncidentState.resolved
          (verifying-IsLegal x IncidentState.resolved at refl (λ h. absurd (ground (arith, h)))) in
      let (state, version) = moved-fields x x.version IncidentState.resolved input.now in
      (
        record t { tables = record (t.tables) { control = l.after } },
        l.run,
        record {
          row = moved x x.version IncidentState.resolved input.now;
          here = l.stored;
          state = state;
          version = version;
          escalations = omega arith;
          attention = omega arith;
        },
        refl,
        refl,
      )

  pub escalates :
      (root_cause : String) (severity : Severity) (reason : String)
      → (t' : VerifyTables) × (escalate_with input root_cause severity reason t ≡ ok t')
        × IsAt t'.tables t.tables input.incident_id escalated (x.version + 1) 1
        × (t'.schedules ≡ t.schedules)
        × (t'.results ≡ t.results)
  unfolding escalate_with can_move is_retry create_escalation_record create_attention_item
  escalates root_cause severity reason =
      let l =
        leave-moves escalated
          (verifying-IsLegal x escalated at refl (λ h. absurd (ground (arith, h)))) in
      let (state, version) = moved-fields x x.version escalated input.now in
      let t1 = record t { tables = record (t.tables) { control = l.after } } in
      (
        record t1 {
          tables = record (t1.tables) {
            escalations =
                create_escalation_record (input.fresh 2) input.incident_id root_cause
                  (t.tables).escalations;
            attention =
                create_attention_item (input.fresh 3) input.incident_id severity reason
                  (t.tables).attention;
          };
        },
        ground (arith, l.run),
        record {
          row = moved x x.version escalated input.now;
          here = l.stored;
          state = state;
          version = version;
          escalations = length-append (t.tables).escalations _;
          attention = length-append (t.tables).attention _;
        },
        refl,
        refl,
      )

  -- The wake-up of a retry.
  abbrev pub wake_up : WorkflowSchedule
  wake_up =
      new_row (input.fresh 4) input.incident_id (x.version + 1) (input.now + input.cooldown_seconds)
        "COOLDOWN" none

  pub retries :
      x.attempts < x.retry_limit
      → any (λ (r : WorkflowSchedule). r.id == input.fresh 4) (input.others t.schedules) ≡ false
      → (t' : VerifyTables) × (retry_later input t ≡ ok t')
        × IsAt t'.tables t.tables input.incident_id diagnosed (x.version + 1) 0
        × (((y : Incident) × (find_incident input.incident_id ((t'.tables).control).incidents
                ≡ some y)
              × (y.attempts ≡ x.attempts + 1))
            × (t'.schedules ≡ input.others t.schedules ++ wake_up ∷ [])
            × (t'.results ≡ t.results))
  unfolding retry_later schedule_retry_cooldown create_workflow_schedule version_of can_move
      is_retry moved apply_changes changes_for
  retries budget free =
      let l = leave-moves diagnosed (verifying-IsLegal x diagnosed at refl (λ h. budget)) in
      let (state, version) = moved-fields x x.version diagnosed input.now in
      (
        record t {
          tables = record (t.tables) { control = l.after };
          schedules = input.others t.schedules ++ wake_up ∷ [];
        },
        ground (arith, l.run, free),
        record {
          row = moved x x.version diagnosed input.now;
          here = l.stored;
          state = state;
          version = version;
          escalations = omega arith;
          attention = omega arith;
        },
        ((moved x x.version diagnosed input.now, l.stored, ground (arith, at)), refl, refl),
      )
