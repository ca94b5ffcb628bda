-- ===== src/Incident/Store.antt =====
-- The rows that the incident methods of control_plane.py read and write, and the results of a method.
use self_healing_agent.Prelude.{
  sym, true≢false, All, Option-cases, ◌∙◌, ℕ, ◌≡◌, ◌≢◌, refl, Bool, true, false, List, [], ◌∷◌,
  Option, none, some, String, ◌==◌, if◌then◌else◌, arith, ◌⊎◌, inl, inr, Bool-cases,
}
use self_healing_agent.Incident.States.{IncidentState, Severity}

-- LookupError, ConflictError and ValueError.
pub data Failure : Type 0 where
  lookup_error conflict_error value_error : Failure

pub data Result {ℓ} (A : Type ℓ) : Type ℓ where
  ok : A → Result A
  err : Failure → Result A

infixl 5 ◌>>=◌
abbrev pub ◌>>=◌ {ℓ κ} : {A : Type ℓ} {B : Type κ} → Result A → (A → Result B) → Result B
ok a >>= f = f a
err e >>= f = err e

pub Result-cases {ℓ} :
    {A : Type ℓ} (r : Result A) → ((e : Failure) × (r ≡ err e)) ⊎ ((a : A) × (r ≡ ok a))
Result-cases (err e) = inl (e, refl)
Result-cases (ok a) = inr (a, refl)

-- `created_at` and `occurred_at` are written by no method here and are left out.
pub record Incident : Type 0 where
  pub id : ℕ
  pub resource_id : ℕ
  pub correlation_key : String
  pub state : IncidentState
  pub severity : Severity
  pub version : ℕ
  pub attempts : ℕ
  pub retry_limit : ℕ
  pub approval_required : Bool
  pub updated_at : ℕ
  pub resolved_at : Option ℕ

pub data OutboxStatus : Type 0 where
  pending published failed_status : OutboxStatus

pub record IncidentPayload : Type 0 where
  pub incident_id : ℕ
  pub state : IncidentState
  pub version : ℕ
  pub severity : Severity
  pub correlation_key : String
  pub resource_id : ℕ

-- `aggregate_type`, which is always "incident", and `actor` are left out.
pub record OutboxEvent : Type 0 where
  pub id : ℕ
  pub event_type : String
  pub aggregate_id : ℕ
  pub aggregate_version : ℕ
  pub payload : IncidentPayload
  pub status : OutboxStatus
  pub retry_count : ℕ
  pub last_error : Option String
  pub published_at : Option ℕ

pub record Db : Type 0 where
  pub incidents : List Incident
  pub outbox : List OutboxEvent

-- `session.get(Incident, id)`
unfoldable pub find_incident : ℕ → List Incident → Option Incident
find_incident i [] = none
find_incident i (x ∷ xs) = if x.id == i then some x else find_incident i xs

-- `UPDATE incidents SET … WHERE id = i AND p RETURNING *`: `id` is the primary key, so one row at most
-- is written and returned.
unfoldable pub update_incident :
    ℕ
    → (Incident → Bool)
    → (Incident → Incident)
    → List Incident
    → Option (Incident × List Incident)
update_incident i p f [] = none
update_incident i p f (x ∷ xs) =
    let rest = update_incident i p f xs in
    if x.id == i
    then (if p x then some (f x, f x ∷ xs) else none)
    else elim rest [ none ↦ none | some (y, ys) ↦ some (y, x ∷ ys) ]

find-head :
    (x : Incident) (xs : List Incident) (i : ℕ)
    → (x.id == i) ≡ true
    → find_incident i (x ∷ xs) ≡ some x
unfolding find_incident
find-head x xs i h = rw h refl

find-tail :
    (x : Incident) (xs : List Incident) (i : ℕ)
    → (x.id == i) ≡ false
    → find_incident i (x ∷ xs) ≡ find_incident i xs
unfolding find_incident
find-tail x xs i h = rw h refl

module _ (i : ℕ) (p : Incident → Bool) (f : Incident → Incident) where
  -- Either the first row is the one that is written, or the update goes on behind it.
  update_cases :
      (x : Incident) (xs ys : List Incident) (y : Incident)
      → update_incident i p f (x ∷ xs) ≡ some (y, ys)
      → (((x.id == i) ≡ true) × (p x ≡ true) × (y ≡ f x) × (ys ≡ f x ∷ xs))
        ⊎ (((x.id == i) ≡ false)
            × ((zs : List Incident) × (update_incident i p f xs ≡ some (y, zs)) × (ys ≡ x ∷ zs)))
  unfolding update_incident
  update_cases x xs ys y e = elim (Bool-cases (x.id == i)) [
    | inl hit ↦ elim (Bool-cases (p x)) [
      | inl good ↦ inl (hit, good, ground arith, ground arith)
      | inr bad ↦ absurd (ground arith)
    ]
    | inr miss ↦ elim (Option-cases (update_incident i p f xs)) [
      | inl gone ↦ absurd (ground arith)
      | inr (r, rest) ↦ inr (miss, (r.1, ground arith, ground arith))
    ]
  ]

  -- The row that an update returns was found under `i`, passed the test, and is the old one changed.
  pub update-find :
      (xs ys : List Incident) (y : Incident)
      → update_incident i p f xs ≡ some (y, ys)
      → (old : Incident) × (find_incident i xs ≡ some old) × (p old ≡ true) × (y ≡ f old)
  unfolding update_incident
  update-find [] ys y e = absurd (ground arith)
  update-find (x ∷ xs) ys y e = elim (update_cases x xs ys y e) [
    | inl (hit, good, new, tail) ↦ (x, find-head x xs i hit, good, new)
    | inr (miss, (zs, rest, tail)) ↦
        let (old, was, good, new) = update-find xs zs y rest in
        (old, find-tail x xs i miss ∙ was, good, new)
  ]

  module _ (keeps : (x : Incident) → (f x).id ≡ x.id) where
    -- It is found under `i` afterwards, and the row under any other identifier stays.
    pub find-update :
        (xs ys : List Incident) (y : Incident)
        → update_incident i p f xs ≡ some (y, ys)
        → find_incident i ys ≡ some y
    unfolding update_incident
    find-update [] ys y e = absurd (ground arith)
    find-update (x ∷ xs) ys y e = elim (update_cases x xs ys y e) [
      | inl (hit, good, new, tail) ↦ rw (tail, new) (find-head (f x) xs i (rw (keeps x) hit))
      | inr (miss, (zs, rest, tail)) ↦ rw tail (find-tail x zs i miss ∙ find-update xs zs y rest)
    ]

    pub find-update_other :
        (j : ℕ)
        → j ≢ i
        → (xs ys : List Incident) (y : Incident) → update_incident i p f xs ≡ some (y, ys)
        → find_incident j ys ≡ find_incident j xs
    unfolding update_incident find_incident
    find-update_other j n [] ys y e = absurd (ground arith)
    find-update_other j n (x ∷ xs) ys y e = elim (update_cases x xs ys y e) [
      | inl (hit, good, new, tail) ↦ rw tail (ground (arith, keeps x))
      | inr (miss, (zs, rest, tail)) ↦ rw tail (ground (arith, find-update_other j n xs zs y rest))
    ]

  -- Where the row under `i` passes the test, the update returns it.
  pub update-some :
      (xs : List Incident) (old : Incident)
      → find_incident i xs ≡ some old
      → p old ≡ true
      → (ys : List Incident) × (update_incident i p f xs ≡ some (f old, ys))
  unfolding find_incident update_incident
  update-some [] old e h = absurd (ground arith)
  update-some (x ∷ xs) old e h = elim (Bool-cases (x.id == i)) [
    | inl hit ↦ (f x ∷ xs, ground arith)
    | inr miss ↦
        let (ys, run) = update-some xs old (ground arith) h in (x ∷ ys, rw (miss, run) refl)
  ]

  -- Where no row under `i` passes it, the update returns none.
  pub update-none :
      (xs : List Incident)
      → ((old : Incident) → find_incident i xs ≡ some old → p old ≡ false)
      → update_incident i p f xs ≡ none
  update-none xs h = elim (Option-cases (update_incident i p f xs)) [
    | inl gone ↦ gone
    | inr ((y, ys), run) ↦
        let (old, was, good, new) = update-find xs ys y run in
        absurd (true≢false (sym good ∙ h old was))
  ]

  -- What holds of every row, and is kept by the change where the test passes, holds afterwards.
  pub All-update {ℓ} :
      (P : Incident → Type ℓ)
      → ((x : Incident) → p x ≡ true → P x → P (f x))
      → (xs ys : List Incident) (y : Incident) → update_incident i p f xs ≡ some (y, ys)
      → All P xs
      → All P ys
  unfolding update_incident
  All-update P keep [] ys y e h = absurd (ground arith)
  All-update P keep (x ∷ xs) ys y e h = elim (update_cases x xs ys y e) [
    | inl (hit, good, new, tail) ↦ rw tail (keep x good h.0, h.1)
    | inr (miss, (zs, rest, tail)) ↦ rw tail (h.0, All-update P keep xs zs y rest h.1)
  ]
