-- ===== src/Incident/States.antt =====
-- sharedmodels/enums.py and domain/incidents/state_machine.py.
use self_healing_agent.Prelude.{◌≡◌, refl, Bool, true, false, ◌↔◌, ◌⊎◌, arith}

pub data IncidentState : Type 0 where
  detected triaged diagnosed planned pending_approval approved : IncidentState
  executing verifying resolved escalated failed rolledback : IncidentState

unfoldable pub IncidentState-discrete : Discrete IncidentState
IncidentState-discrete = hlevel

pub data Severity : Type 0 where
  low medium high critical : Severity

-- `target in TRANSITIONS[current]`
unfoldable pub can_move : IncidentState → IncidentState → Bool
can_move detected triaged = true
can_move triaged diagnosed = true
can_move triaged escalated = true
can_move diagnosed planned = true
can_move diagnosed escalated = true
can_move planned pending_approval = true
can_move planned executing = true
can_move planned escalated = true
can_move pending_approval approved = true
can_move pending_approval escalated = true
can_move approved executing = true
can_move approved escalated = true
can_move executing verifying = true
can_move executing failed = true
can_move verifying resolved = true
can_move verifying diagnosed = true
can_move verifying escalated = true
can_move failed rolledback = true
can_move failed escalated = true
can_move _ _ = false

-- The list `terminal_states` of the repository.
unfoldable pub is_terminal : IncidentState → Bool
is_terminal resolved = true
is_terminal escalated = true
is_terminal rolledback = true
is_terminal _ = false

unfoldable pub is_planned : IncidentState → Bool
is_planned planned = true
is_planned _ = false

unfoldable pub is_escalated : IncidentState → Bool
is_escalated escalated = true
is_escalated _ = false

unfoldable pub is_approved : IncidentState → Bool
is_approved approved = true
is_approved _ = false

unfoldable pub is_resolved : IncidentState → Bool
is_resolved resolved = true
is_resolved _ = false

-- `current == VERIFYING and target == DIAGNOSED`
unfoldable pub is_retry : IncidentState → IncidentState → Bool
is_retry verifying diagnosed = true
is_retry _ _ = false

-- The diagram as a relation, and the walks along it.
infix 40 ◌⟶*◌
pub data ◌⟶*◌ (s : IncidentState) : IncidentState → Type 0 where
  here : s ⟶* s
  next : {t u : IncidentState} → s ⟶* t → can_move t u ≡ true → s ⟶* u

terminal_stuck : (s t : IncidentState) → is_terminal s ≡ true → can_move s t ≡ false
unfolding is_terminal can_move
terminal_stuck s t h = ground arith

-- A move that every other state has.
way_out : IncidentState → IncidentState
way_out detected = triaged
way_out pending_approval = approved
way_out executing = failed
way_out _ = escalated

way_out-can_move : (s : IncidentState) → (is_terminal s ≡ true) ⊎ (can_move s (way_out s) ≡ true)
unfolding is_terminal can_move way_out
way_out-can_move s = ground arith

-- The states that the repository calls terminal are exactly those that no transition leaves.
pub is_terminal_iff :
    (s : IncidentState) → (is_terminal s ≡ true) ↔ ((t : IncidentState) → can_move s t ≡ false)
is_terminal_iff s =
    (λ h t. terminal_stuck s t h, λ h. ground (arith, h (way_out s), way_out-can_move s))

-- From every state the diagram leads to a terminal one.
reaches_terminal : (s : IncidentState) → (t : IncidentState) × (is_terminal t ≡ true) × (s ⟶* t)
unfolding can_move is_terminal
reaches_terminal resolved = (resolved, refl, here)
reaches_terminal escalated = (escalated, refl, here)
reaches_terminal rolledback = (rolledback, refl, here)
reaches_terminal detected = (escalated, refl, next {t = triaged} (next here refl) refl)
reaches_terminal pending_approval = (escalated, refl, next here refl)
reaches_terminal executing = (escalated, refl, next {t = failed} (next here refl) refl)
reaches_terminal triaged = (escalated, refl, next here refl)
reaches_terminal diagnosed = (escalated, refl, next here refl)
reaches_terminal planned = (escalated, refl, next here refl)
reaches_terminal approved = (escalated, refl, next here refl)
reaches_terminal verifying = (escalated, refl, next here refl)
reaches_terminal failed = (escalated, refl, next here refl)
