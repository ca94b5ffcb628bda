-- ===== src/Workflow/Graph.antt =====
-- The state of graph/state.py, as far as the edges read it, and the edges of graph/builder.py.
use self_healing_agent.Prelude.{
  or_default, none, ◌&&◌, some, ◌||◌, not, str_eq, some_and, if◌then◌else◌, String, Bool, Option,
}

-- A key that the dictionary does not hold is `none`, as is None. `is_denied` is read by the approval node
-- and is no key that the TypedDict declares.
pub record IncidentGraphState : Type 0 where
  pub status : Option String
  pub is_actionable : Option Bool
  pub policy_decision : Option String
  pub approval_required : Option Bool
  pub is_approved : Option Bool
  pub is_denied : Option Bool
  pub approval_expired : Option Bool
  pub wait_reason : Option String
  pub escalation_reason : Option String
  pub verification_passed : Option Bool
  pub retry_eligible : Option Bool

pub data Node : Type 0 where
  collect_evidence diagnose plan evaluate_policy wait_for_approval : Node
  execute verify escalate resolve finish : Node

-- `x is True`, `x is False` and the truth of an optional flag.
abbrev pub is_true : Option Bool → Bool
is_true o = some_and o (λ b. b)

abbrev pub is_false : Option Bool → Bool
is_false o = some_and o not

-- `x == text`
abbrev pub reads : Option String → String → Bool
reads o text = some_and o (λ s. str_eq s text)

unfoldable pub route_after_diagnose : IncidentGraphState → Node
route_after_diagnose state =
    if reads state.status "DIAGNOSIS_ESCALATED" || is_false state.is_actionable
    then escalate
    else plan

unfoldable pub route_after_plan : IncidentGraphState → Node
route_after_plan state =
    if reads state.status "PLANNING_ESCALATED" then escalate else evaluate_policy

unfoldable pub route_after_policy : IncidentGraphState → Node
route_after_policy state =
    if reads state.status "POLICY_DENIED"
      || reads state.status "ESCALATED"
      || reads state.policy_decision "DENY"
    then escalate
    else if reads state.status "POLICY_DEFERRED" || reads state.policy_decision "DEFER"
    then finish
    else if is_true state.approval_required && not (is_true state.is_approved)
    then wait_for_approval
    else if reads state.policy_decision "ALLOW"
        || is_true state.is_approved
        || reads state.status "POLICY_EVALUATED"
    then execute
    else escalate

unfoldable pub route_after_approval_wait : IncidentGraphState → Node
route_after_approval_wait state =
    if reads state.wait_reason "AWAITING_APPROVAL"
    then finish
    else if is_true state.is_approved
    then execute
    else escalate

unfoldable pub route_after_execute : IncidentGraphState → Node
route_after_execute state = if reads state.status "EXECUTED" then verify else escalate

unfoldable pub route_after_verify : IncidentGraphState → Node
route_after_verify state =
    if reads state.wait_reason "COOLDOWN"
    then finish
    else if is_true state.verification_passed
    then resolve
    else if is_true state.retry_eligible
    then diagnose
    else escalate

-- The edge that is taken after a node; `finish` is END.
unfoldable pub route : Node → IncidentGraphState → Node
route collect_evidence state = diagnose
route diagnose state = route_after_diagnose state
route plan state = route_after_plan state
route evaluate_policy state = route_after_policy state
route wait_for_approval state = route_after_approval_wait state
route execute state = route_after_execute state
route verify state = route_after_verify state
route escalate state = finish
route resolve state = finish
route finish state = finish

-- `wait_for_approval_node`, with its update written into the state.
unfoldable pub wait_for_approval_node : IncidentGraphState → IncidentGraphState
wait_for_approval_node state =
    if is_true state.is_denied || is_true state.approval_expired
    then record state {
      status = some "ESCALATED";
      wait_reason = none;
      escalation_reason = some (or_default state.escalation_reason "Approval rejected or expired.");
    }
    else if is_true state.is_approved
    then record state { status = some "APPROVED"; wait_reason = none }
    else record state { status = some "PENDING_APPROVAL"; wait_reason = some "AWAITING_APPROVAL" }
