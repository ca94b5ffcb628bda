-- ===== src/Nodes/Execute/Settled.antt =====
-- What the transactions of the execution node leave.
use self_healing_agent.Approvals.Submit.{create_escalation_record}
use self_healing_agent.Nodes.Store.{
  transition-moves, create_attention_item, move_where-moves, Tables,
}
use self_healing_agent.Incident.States.{
  critical, high, verifying, approved, escalated, executing, IncidentState-discrete, is_escalated,
  is_retry, is_planned, IncidentState, planned, can_move,
}
use self_healing_agent.Incident.Store.{ok, find_incident, Incident}
use self_healing_agent.Incident.Transition.{
  required_target, changes_for, apply_changes, breaks_approval,
}
use self_healing_agent.Incident.Transition.Laws.{IsLegal, moved}
use self_healing_agent.Prelude.{
  subst, inr, inl, length-append, length, ◌⊎◌, arith, ◌+◌, ℕ, some, ◌≡◌, refl, false, true,
}
use self_healing_agent.Nodes.Execute.{
  is_executing, record_failure, fail_and_escalate, escalate_precheck, start_executing,
  escalate_failure, start_verifying, is_ready, World,
}

pub moved-fields :
    (x : Incident) (v : ℕ) (target : IncidentState) (now : ℕ)
    → ((moved x v target now).state ≡ target) × ((moved x v target now).version ≡ v + 1)
unfolding moved apply_changes changes_for
moved-fields x v target now = (refl, refl)

-- The incident may be executed: approved, or planned without the requirement of an approval.
pub record IsExecutable (x : Incident) : Type 0 where
  pub ready : is_ready x.state ≡ true
  pub free : x.state ≡ planned → x.approval_required ≡ false

-- Moves out of EXECUTING and FAILED.
pub open_move :
    (x : Incident) (target : IncidentState)
    → is_planned x.state ≡ false
    → can_move x.state target ≡ true
    → is_retry x.state target ≡ false
    → IsLegal x x.version target
unfolding breaks_approval
open_move x target unplanned edge first = record {
  current = refl;
  edge = edge;
  approval = ground (arith, unplanned);
  budget = λ h. absurd (ground (arith, h, first));
}

ready-cases : (s : IncidentState) → is_ready s ≡ true → (s ≡ approved) ⊎ (s ≡ planned)
unfolding is_ready
ready-cases s h = ground (arith, h)

executable-IsLegal : (x : Incident) → IsExecutable x → IsLegal x x.version executing
unfolding can_move is_planned is_retry breaks_approval required_target IncidentState-discrete
executable-IsLegal x e = elim (ready-cases x.state e.ready) [
  | inl a ↦ open_move x executing (ground (arith, a)) (ground (arith, a)) (ground (arith, a))
  | inr p ↦ record {
    current = refl;
    edge = ground (arith, p);
    approval = let free = e.free p in ground (arith, p, free);
    budget = λ h. absurd (ground (arith, h, p));
  }
]

pub ready-IsLegal : (x : Incident) → is_ready x.state ≡ true → IsLegal x x.version escalated
unfolding can_move is_planned is_retry breaks_approval is_escalated
ready-IsLegal x ready = elim (ready-cases x.state ready) [
  | inl a ↦ open_move x escalated (ground (arith, a)) (ground (arith, a)) (ground (arith, a))
  | inr p ↦ record {
    current = refl;
    edge = ground (arith, p);
    approval = ground (arith, p);
    budget = λ h. absurd (ground (arith, h, p));
  }
]

-- The incident is at the state and version, and the records have grown by `n` each.
pub record IsAt (t' t : Tables) (i : ℕ) (s : IncidentState) (v n : ℕ) : Type 0 where
  pub row : Incident
  pub here : find_incident i t'.control.incidents ≡ some row
  pub state : row.state ≡ s
  pub version : row.version ≡ v
  pub escalations : length t'.escalations ≡ length t.escalations + n
  pub attention : length t'.attention ≡ length t.attention + n

module _ (world : World) (i : ℕ) (t : Tables) (x : Incident)
    (here : find_incident i t.control.incidents ≡ some x) where
  pub escalate_precheck-settles :
      is_ready x.state ≡ true
      → (t' : Tables) × (escalate_precheck world i t ≡ ok t')
        × IsAt t' t i escalated (x.version + 1) 1
  unfolding escalate_precheck record_failure create_escalation_record create_attention_item
  escalate_precheck-settles ready =
      let m =
        transition-moves i escalated (world.clock 1) (world.fresh 0) t.control x here
          (ready-IsLegal x ready) in
      let run =
        move_where-moves is_ready i escalated (world.clock 1) (world.fresh 0) t.control x here ready
          m in
      let (state, version) = moved-fields x x.version escalated (world.clock 1) in
      (
        record_failure world i "PRECHECK_FAILED" high "Precheck Failed" m.after t,
        ground (arith, run),
        record {
          row = moved x x.version escalated (world.clock 1);
          here = m.stored;
          state = state;
          version = version;
          escalations = length-append t.escalations _;
          attention = length-append t.attention _;
        },
      )

  pub start_executing-settles :
      IsExecutable x
      → (t' : Tables) × (start_executing world i t ≡ ok t')
        × IsAt t' t i executing (x.version + 1) 0
  unfolding start_executing
  start_executing-settles e =
      let m =
        transition-moves i executing (world.clock 1) (world.fresh 0) t.control x here
          (executable-IsLegal x e) in
      let run =
        move_where-moves is_ready i executing (world.clock 1) (world.fresh 0) t.control x here
          e.ready m in
      let (state, version) = moved-fields x x.version executing (world.clock 1) in
      (
        record t { control = m.after },
        ground (arith, run),
        record {
          row = moved x x.version executing (world.clock 1);
          here = m.stored;
          state = state;
          version = version;
          escalations = omega arith;
          attention = omega arith;
        },
      )

  pub start_verifying-settles :
      x.state ≡ executing
      → (t' : Tables) × (start_verifying world i t ≡ ok t')
        × IsAt t' t i verifying (x.version + 1) 0
  unfolding start_verifying is_executing is_planned can_move is_retry
  start_verifying-settles e =
      let m =
        transition-moves i verifying (world.clock 2) (world.fresh 0) t.control x here
          (open_move x verifying (ground (arith, e)) (ground (arith, e)) (ground (arith, e))) in
      let run =
        move_where-moves is_executing i verifying (world.clock 2) (world.fresh 0) t.control x here
          (ground (arith, e)) m in
      let (state, version) = moved-fields x x.version verifying (world.clock 2) in
      (
        record t { control = m.after },
        ground (arith, run),
        record {
          row = moved x x.version verifying (world.clock 2);
          here = m.stored;
          state = state;
          version = version;
          escalations = omega arith;
          attention = omega arith;
        },
      )

  pub escalate_failure-settles :
      x.state ≡ executing
      → (t' : Tables) × (escalate_failure world i t ≡ ok t')
        × IsAt t' t i escalated (x.version + 2) 1
  unfolding is_planned can_move is_retry escalate_failure fail_and_escalate is_executing
      record_failure create_escalation_record create_attention_item
  escalate_failure-settles e =
      let m =
        transition-moves i IncidentState.failed (world.clock 2) (world.fresh 0) t.control x here (
          open_move x IncidentState.failed (ground (arith, e)) (ground (arith, e))
            (ground (arith, e))) in
      let y = moved x x.version IncidentState.failed (world.clock 2) in
      let (state, version) = moved-fields x x.version IncidentState.failed (world.clock 2) in
      let last = transition-moves i escalated (world.clock 2) (world.fresh 0) m.after y m.stored (
        open_move y escalated (ground (arith, state)) (ground (arith, state))
          (ground (arith, state))) in
      let (state', version') = moved-fields y y.version escalated (world.clock 2) in
      let control : fail_and_escalate world i t.control ≡ ok last.after =
        ground (arith, here, e, m.run, last.run) in
      (
        record_failure world i "EXECUTION_FAILED" critical "Execution Failed or Uncertain"
            last.after t,
        ground (arith, control),
        record {
          row = moved y y.version escalated (world.clock 2);
          here = last.stored;
          state = state';
          version = omega (arith, version, version');
          escalations = length-append t.escalations _;
          attention = length-append t.attention _;
        },
      )

pub at_version_eq :
    {t' t : Tables} {i : ℕ} {s : IncidentState} {v w n : ℕ}
    → IsAt t' t i s v n
    → v ≡ w
    → IsAt t' t i s w n
at_version_eq {t'} {t} {i} {s} {v} {w} {n} at e = subst (λ z. IsAt t' t i s z n) e at
