-- ===== src/Policy/Tests.antt =====
-- The engine's results at concrete contexts.
use self_healing_agent.Prelude.{true, false, ◌≡◌, refl, ◌⊎◌, some, none}
use self_healing_agent.Policy.Schemas.{
  seconds, ApprovalGrant, Datetime, allow, defer, PolicyEvaluationDecision,
}
use self_healing_agent.Policy.Engine.{decide, gated}
use self_healing_agent.Policy.Rules.{cooldown_result, grant_outcome}
use self_healing_agent.Policy.Engine.Permitted.{Permitted, IsEligible, IsRefused}
use self_healing_agent.Policy.Engine.Decisions.{evaluate-allow_iff, evaluate-deny_iff}
use self_healing_agent.Policy.Examples.{engine, default_rules, grant, stopped_container, outcome_of}

abbrev naive : Datetime
naive = record { aware = false; at = seconds 900 }

allowed : outcome_of (stopped_container (some grant) none) ≡ some allow
unfolding outcome_of
allowed = refl

deferred : outcome_of (stopped_container (some grant) (some naive)) ≡ some defer
unfolding outcome_of
deferred = refl

evaluate-allow_example : Permitted (stopped_container (some grant) none) default_rules
unfolding outcome_of
evaluate-allow_example =
    (evaluate-allow_iff engine (stopped_container (some grant) none) none refl).0 refl

abbrev rejection : ApprovalGrant
rejection = record grant { decision = "Reject" }

evaluate-deny_example :
    (¬ IsEligible (stopped_container (some rejection) none) default_rules)
    ⊎ IsRefused (stopped_container (some rejection) none) default_rules
unfolding outcome_of
evaluate-deny_example =
    (evaluate-deny_iff engine (stopped_container (some rejection) none) none refl).0 refl

abbrev deferral : PolicyEvaluationDecision
deferral = decide (stopped_container (some grant) (some naive)) default_rules (
    gated (stopped_container (some grant) (some naive))
      (stopped_container (some grant) (some naive)) default_rules (cooldown_result true)
      (grant_outcome false "approver"))
