-- ===== src/Nodes/Execute/Ends.antt =====
-- What a run of the execution node leaves, on each of its paths, and what it needs to dispatch.
use self_healing_agent.Incident.Transition.Laws.{transition-ok_iff}
use self_healing_agent.Incident.States.{
  IncidentState-discrete, is_escalated, planned, verifying, is_planned, escalated, executing,
}
use self_healing_agent.Incident.Transition.{transition, required_target, breaks_approval}
use self_healing_agent.Incident.Store.{err, Result, Result-cases, ok, find_incident, Incident}
use self_healing_agent.Adapter.Intent.{ExecutionOutcomeStatus, ExecutionIntent}
use self_healing_agent.Prelude.{
  List, Option-cases, inr, inl, subst, arith, Bool-cases, ◌⊎◌, ℕ, some, ◌≡◌, [], ◌∷◌, refl, false,
  true, ◌+◌,
}
use self_healing_agent.Nodes.Execute.{
  escalate_failure, escalate_precheck, start_verifying, ExecuteStatus, execution_failed, executed,
  precheck_escalated, find_intent, is_success, Ended, commit, is_ready, dispatch, execute_intent,
  start_executing, execute_node, World, ExecuteState, updated,
}
use self_healing_agent.Nodes.Store.{move_where, Tables}
use self_healing_agent.Nodes.Execute.Settled.{IsAt}

-- The row under `i` is the same in both tables.
abbrev pub KeepsRow : ℕ → Tables → Tables → Type 0
KeepsRow i t' t = find_incident i t'.control.incidents ≡ find_incident i t.control.incidents

-- How a run ends on the tables `t` that its first transaction meets, where the adapter answers `s`.
pub record IsEnded (world : World) (intent : ExecutionIntent) (x : Incident) (t : Tables)
    (s : ExecutionOutcomeStatus) (e : Ended) : Type 0 where
  pub blocked :
      world.precheck_passes intent ≡ false
      → (e.dispatched ≡ [])
        × (e.answer ≡ updated precheck_escalated)
        × IsAt e.tables t intent.incident_id escalated (x.version + 1) 1
  pub done :
      world.precheck_passes intent ≡ true
      → (e.dispatched ≡ intent ∷ [])
        × ((t1 : Tables) × IsAt t1 t intent.incident_id executing (x.version + 1) 0
            × (is_success s ≡ true
                → (e.answer ≡ updated executed)
                  × IsAt e.tables
                      (world.others 2 t1)
                      intent.incident_id
                      verifying
                      (x.version + 2)
                      0)
            × (is_success s ≡ false
                → (e.answer ≡ updated execution_failed)
                  × IsAt e.tables
                      (world.others 2 t1)
                      intent.incident_id
                      escalated
                      (x.version + 3)
                      1))

start-free :
    (world : World) (i : ℕ) (t t1 : Tables) (x : Incident)
    → find_incident i t.control.incidents ≡ some x
    → start_executing world i t ≡ ok t1
    → x.state ≡ planned
    → x.approval_required ≡ false
unfolding start_executing move_where is_ready breaks_approval required_target is_planned
    is_escalated IncidentState-discrete
start-free world i t t1 x here run p =
    elim (Result-cases
      (transition t.control i x.version executing (world.clock 1) (world.fresh 0))) [
        | inl (e, bad) ↦ absurd (ground (arith, run, here, p, bad))
        | inr (r, good) ↦
            let (old, was, legal) =
              (transition-ok_iff t.control i x.version executing (world.clock 1) (world.fresh 0)).0
                (r, good) in
            let same : old ≡ x = ground (arith, was, here) in
            let fits : breaks_approval x executing ≡ false =
              subst (λ z. breaks_approval z executing ≡ false) same legal.approval in
            elim (Bool-cases x.approval_required) [
              | inr free ↦ free
              | inl asked ↦ absurd (ground (arith, fits, p, asked))
            ]
      ]

commit-dispatched :
    (t : Tables) (sent : List ExecutionIntent) (status : ExecuteStatus) (r : Result Tables)
    → (commit t sent status r).dispatched ≡ sent
unfolding commit
commit-dispatched t sent status (ok t') = refl
commit-dispatched t sent status (err e) = refl

dispatch-dispatched :
    (world : World) (intent : ExecutionIntent) (t : Tables)
    → (dispatch world intent t).dispatched ≡ intent ∷ []
unfolding dispatch
dispatch-dispatched world intent t = elim (Option-cases (world.adapter_execute intent)) [
  | inl raises ↦ ground (arith, raises)
  | inr (status, acts) ↦
      let t2 = world.others 2 t in
      let sent = intent ∷ [] in
      elim (Bool-cases (is_success status)) [
        | inl good ↦
            let c =
              commit-dispatched t2 sent executed (start_verifying world intent.incident_id t2) in
            ground (arith, acts, good, c)
        | inr bad ↦
            let c =
              commit-dispatched t2 sent execution_failed
                (escalate_failure world intent.incident_id t2) in
            ground (arith, acts, bad, c)
      ]
]

-- Whatever other workers do and the adapter answers, the node dispatches nothing, or the intent of the plan's
-- step, once, after a precheck that passed, and not for an incident that is PLANNED and requires an approval.
pub execute_node-guarded :
    (world : World) (state : ExecuteState) (t0 : Tables)
    → let t = world.others 1 (world.others 0 t0) in
      let sent = (execute_node world state t0).dispatched in
      (sent ≡ [])
      ⊎ ((intent : ExecutionIntent) × (find_intent world state ≡ ok intent)
          × (sent ≡ intent ∷ [])
          × (world.precheck_passes intent ≡ true)
          × ((x : Incident)
              → find_incident intent.incident_id t.control.incidents ≡ some x
              → x.state ≡ planned
              → x.approval_required ≡ false))
unfolding execute_node execute_intent
execute_node-guarded world state t0 = elim (Result-cases (find_intent world state)) [
  | inl (e, bad) ↦ inl (ground (arith, bad))
  | inr (intent, found) ↦
      let t = world.others 1 (world.others 0 t0) in
      let i = intent.incident_id in
      elim (Bool-cases (world.precheck_passes intent)) [
        | inr blocked ↦
            let c = commit-dispatched t [] precheck_escalated (escalate_precheck world i t) in
            inl (ground (arith, found, blocked, c))
        | inl passes ↦ elim (Result-cases (start_executing world i t)) [
          | inl (e, bad) ↦ inl (ground (arith, found, passes, bad))
          | inr (t1, run) ↦ inr (
            intent,
            found,
            (let d = dispatch-dispatched world intent t1 in ground (arith, found, passes, run, d)),
            passes,
            λ x here p. start-free world i t t1 x here run p,
          )
        ]
      ]
]
