-- ===== src/Runtime/Schedule.antt =====
-- The table `workflow_schedules`; `resume_metadata` and `actor` are left out. Times are seconds.
use self_healing_agent.Prelude.{
  zero, suc, suc, ◌++◌, ◌==◌, false, Option, leb, any, if◌then◌else◌, true, String, keep, List,
  Bool, ℕ, [], ◌∷◌, some, none, ◌&&◌,
}
pub mod Claims

pub data ScheduleStatus : Type 0 where
  waiting processed cancelled : ScheduleStatus

pub record WorkflowSchedule : Type 0 where
  pub id : ℕ
  pub incident_id : ℕ
  pub incident_version : ℕ
  pub next_run_at : ℕ
  pub wait_reason : String
  pub deadline : Option ℕ
  pub status : ScheduleStatus

-- `status == "PENDING"`
unfoldable pub is_waiting : ScheduleStatus → Bool
is_waiting waiting = true
is_waiting _ = false

-- The row that is added.
unfoldable pub new_row : ℕ → ℕ → ℕ → ℕ → String → Option ℕ → WorkflowSchedule
new_row fresh incident version next_run_at reason deadline = record {
  id = fresh;
  incident_id = incident;
  incident_version = version;
  next_run_at = next_run_at;
  wait_reason = reason;
  deadline = deadline;
  status = waiting;
}

-- `create_workflow_schedule`; without an answer where the identifier, the primary key, is taken.
unfoldable pub create_workflow_schedule :
    ℕ → ℕ → ℕ → ℕ → String → Option ℕ → List WorkflowSchedule → Option (List WorkflowSchedule)
create_workflow_schedule fresh incident version next_run_at reason deadline rows =
    if any (λ r. r.id == fresh) rows
    then none
    else some (rows ++ new_row fresh incident version next_run_at reason deadline ∷ [])

-- `order_by(next_run_at)`, rows at one time as they stand
unfoldable pub insert_due : WorkflowSchedule → List WorkflowSchedule → List WorkflowSchedule
insert_due r [] = r ∷ []
insert_due r (s ∷ rows) =
    let later = insert_due r rows in
    if leb r.next_run_at s.next_run_at then r ∷ s ∷ rows else s ∷ later

unfoldable pub sort_due : List WorkflowSchedule → List WorkflowSchedule
sort_due [] = []
sort_due (r ∷ rows) = insert_due r (sort_due rows)

-- `limit(n)`
unfoldable pub take {ℓ} : {A : Type ℓ} → ℕ → List A → List A
take zero xs = []
take (suc n) [] = []
take (suc n) (x ∷ xs) = x ∷ take n xs

-- `fetch_due_workflow_schedules`
unfoldable pub fetch_due_workflow_schedules : ℕ → ℕ → List WorkflowSchedule → List WorkflowSchedule
fetch_due_workflow_schedules limit now rows =
    take limit (sort_due (keep (λ r. is_waiting r.status && leb r.next_run_at now) rows))

-- `mark_schedule_processed_atomic`
unfoldable pub mark_processed : ℕ → List WorkflowSchedule → List WorkflowSchedule
mark_processed i [] = []
mark_processed i (r ∷ rows) =
    (if r.id == i && is_waiting r.status then record r { status = processed } else r)
    ∷ mark_processed i rows

unfoldable pub mark_schedule_processed_atomic :
    ℕ → List WorkflowSchedule → List WorkflowSchedule × Bool
mark_schedule_processed_atomic i rows =
    (mark_processed i rows, any (λ r. r.id == i && is_waiting r.status) rows)

-- `cancel_pending_schedules`
unfoldable pub cancel_pending_schedules : ℕ → List WorkflowSchedule → List WorkflowSchedule
cancel_pending_schedules incident [] = []
cancel_pending_schedules incident (r ∷ rows) =
    (if r.incident_id == incident && is_waiting r.status
      then record r { status = cancelled }
      else r)
    ∷ cancel_pending_schedules incident rows
