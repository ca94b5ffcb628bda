-- ===== src/Runtime/Schedule/Claims.antt =====
-- Claims of one wake-up along any sequence of calls.
use self_healing_agent.Runtime.Schedule.{
  WorkflowSchedule, is_waiting, create_workflow_schedule, mark_schedule_processed_atomic,
  cancel_pending_schedules,
}
use self_healing_agent.Prelude.{
  some, true, Option, suc, String, if◌then◌else◌, ◌≡◌, any, ◌==◌, ℕ, List, Bool, none, false, ◌&&◌,
  [], ◌∷◌,
}

pub data ScheduleCall : Type 0 where
  create : ℕ → ℕ → ℕ → ℕ → String → Option ℕ → ScheduleCall
  claim : ℕ → ScheduleCall
  cancel : ℕ → ScheduleCall

-- The table after a call; a creation that raises leaves it.
unfoldable pub perform_schedule : ScheduleCall → List WorkflowSchedule → List WorkflowSchedule
perform_schedule (create fresh incident version at reason deadline) rows =
    elim (create_workflow_schedule fresh incident version at reason deadline rows) [
      | none ↦ rows
      | some after ↦ after
    ]
perform_schedule (claim i) rows = (mark_schedule_processed_atomic i rows).0
perform_schedule (cancel incident) rows = cancel_pending_schedules incident rows

unfoldable pub answer : ScheduleCall → List WorkflowSchedule → Bool
answer (claim i) rows = (mark_schedule_processed_atomic i rows).1
answer _ rows = false

unfoldable pub is_claim_of : ℕ → ScheduleCall → Bool
is_claim_of i (claim j) = j == i
is_claim_of i _ = false

-- How many claims of `i` succeed.
unfoldable pub claims : ℕ → List ScheduleCall → List WorkflowSchedule → ℕ
claims i [] rows = 0
claims i (c ∷ cs) rows =
    let rest = claims i cs (perform_schedule c rows) in
    if is_claim_of i c && answer c rows then suc rest else rest

abbrev is_open : ℕ → WorkflowSchedule → Bool
is_open i r = r.id == i && is_waiting r.status

-- A row of `i` is there, and none of them waits.
abbrev Spent : ℕ → List WorkflowSchedule → Type 0
Spent i rows = (any (λ r. r.id == i) rows ≡ true) × (any (is_open i) rows ≡ false)
