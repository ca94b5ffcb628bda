-- ===== src/Workflow/Tests.antt =====
-- One run of the workflow, and a node that fails twice.
use self_healing_agent.Prelude.{◌==◌, refl, true, if◌then◌else◌, ◌≡◌, some, none, ℕ}
use self_healing_agent.Workflow.Walks.{begin, onward, Walk, Walk-execute, MayExecute}
use self_healing_agent.Workflow.Retries.{raises, returns, overruns, Outcome, is_retry_eligible}
use self_healing_agent.Workflow.Graph.{
  plan, resolve, evaluate_policy, execute, route_after_diagnose, route_after_execute,
  route_after_verify, route_after_policy, verify, route_after_plan, route, Node, IncidentGraphState,
}

abbrev fresh : IncidentGraphState
fresh = record {
  status = none;
  is_actionable = some true;
  policy_decision = none;
  approval_required = none;
  is_approved = none;
  is_denied = none;
  approval_expired = none;
  wait_reason = none;
  escalation_reason = none;
  verification_passed = none;
  retry_eligible = none;
}

-- Nodes that succeed: the policy allows, the mutation is executed, the verification passes.
abbrev body : Node → IncidentGraphState → IncidentGraphState
body evaluate_policy s = record s {
  policy_decision = some "ALLOW";
  status = some "POLICY_EVALUATED";
}
body execute s = record s { status = some "EXECUTED" }
body verify s = record s { verification_passed = some true }
body _ s = s

abbrev allowed : IncidentGraphState
allowed = record fresh { policy_decision = some "ALLOW"; status = some "POLICY_EVALUATED" }

to_plan : Walk body fresh plan fresh
unfolding route route_after_diagnose
to_plan = onward (onward begin)

to_policy : Walk body fresh evaluate_policy fresh
unfolding route route_after_plan
to_policy = onward to_plan

to_execute : Walk body fresh execute allowed
unfolding route route_after_policy
to_execute = onward to_policy

Walk-execute_example : MayExecute allowed
Walk-execute_example = Walk-execute body fresh allowed to_execute

abbrev verified : IncidentGraphState
verified = record allowed { status = some "EXECUTED"; verification_passed = some true }

to_verify : Walk body fresh verify (record allowed { status = some "EXECUTED" })
unfolding route route_after_execute
to_verify = onward to_execute

to_resolve : Walk body fresh resolve verified
unfolding route route_after_verify
to_resolve = onward to_verify

abbrev expired : IncidentGraphState
expired = record fresh { is_approved = some true; approval_expired = some true }

abbrev flaky : ℕ → Outcome ℕ
flaky k = if k == 3 then returns 7 else raises k

eligible : is_retry_eligible 0 2 (some 1000) 600 2700 1300 ≡ true
unfolding is_retry_eligible overruns
eligible = refl
