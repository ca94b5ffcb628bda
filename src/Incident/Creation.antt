-- ===== src/Incident/Creation.antt =====
-- `get_active_incident_by_correlation_key` and `get_or_create_incident` of control_plane.py.
use self_healing_agent.Incident.States.{is_terminal, detected, Severity}
use self_healing_agent.Prelude.{
  subst, refl, sym, ap, ◌∙◌, sym, inl, inr, Option-cases, not, ◌∙◌, Bool-cases, arith, [], ◌+◌,
  str_eq→eq, ◌∷◌, ap, false, ◌&&◌, is_some, some, ◌↔◌, str_eq, none, true, ◌++◌, if◌then◌else◌,
  List, Bool, ◌≤◌, Option, ◌≡◌, ℕ, String,
}
use self_healing_agent.Incident.Store.{Incident, Db}

-- The rows of the partial unique index `uq_active_incident` that hold a key.
unfoldable pub is_active_for : String → Incident → Bool
is_active_for key x = str_eq x.correlation_key key && not (is_terminal x.state)

unfoldable pub get_active_incident_by_correlation_key : String → List Incident → Option Incident
get_active_incident_by_correlation_key key [] = none
get_active_incident_by_correlation_key key (x ∷ xs) =
    let rest = get_active_incident_by_correlation_key key xs in
    if is_active_for key x then some x else rest

-- The row that is added, with the column defaults of `Incident` and the database's time.
unfoldable pub new_incident : ℕ → ℕ → String → Severity → Bool → ℕ → Incident
new_incident fresh resource_id key severity approval_required now = record {
  id = fresh;
  resource_id = resource_id;
  correlation_key = key;
  state = detected;
  severity = severity;
  version = 1;
  attempts = 0;
  retry_limit = 2;
  approval_required = approval_required;
  updated_at = now;
  resolved_at = none;
}

-- `session.add(incident)` and `flush`: `none` is the IntegrityError of the partial unique index.
unfoldable pub insert_incident : Incident → Db → Option Db
insert_incident x db =
    if is_some (get_active_incident_by_correlation_key x.correlation_key db.incidents)
    then none
    else some (record db { incidents = db.incidents ++ x ∷ [] })

pub data Creation : Type 0 where
  returned : Db → Incident → Bool → Creation
  integrity_error : Creation

-- `get_or_create_incident` of the row `new`: the first read sees `seen`, the insert meets `db`, and the
-- read after a refused insert sees `later`.
unfoldable pub get_or_create_incident : Db → Db → Db → Incident → Creation
get_or_create_incident seen db later new =
    elim (get_active_incident_by_correlation_key new.correlation_key seen.incidents) [
      | some active ↦ returned db active false
      | none ↦ elim (insert_incident new db) [
        | some db' ↦ returned db' new true
        | none ↦ elim (get_active_incident_by_correlation_key new.correlation_key later.incidents) [
          | some active ↦ returned later active false
          | none ↦ integrity_error
        ]
      ]
    ]

-- How many rows the index holds under a key.
unfoldable pub actives : String → List Incident → ℕ
actives key [] = 0
actives key (x ∷ xs) = (if is_active_for key x then 1 else 0) + actives key xs

actives-append :
    (key : String) (xs ys : List Incident)
    → actives key (xs ++ ys) ≡ actives key xs + actives key ys
unfolding actives
actives-append key [] ys = omega arith
actives-append key (x ∷ xs) ys = omega (arith, actives-append key xs ys)

none-actives :
    (key : String) (xs : List Incident)
    → get_active_incident_by_correlation_key key xs ≡ none
    → actives key xs ≡ 0
unfolding get_active_incident_by_correlation_key actives
none-actives key [] h = refl
none-actives key (x ∷ xs) h = elim (Bool-cases (is_active_for key x)) [
  | inl active ↦ absurd (ground (arith, h, active))
  | inr other ↦
      let rest = none-actives key xs (ground (arith, h, other)) in ground (arith, other, rest)
]

insert-ok :
    (x : Incident) (db db' : Db)
    → insert_incident x db ≡ some db'
    → (get_active_incident_by_correlation_key x.correlation_key db.incidents ≡ none)
      × (db'.incidents ≡ db.incidents ++ x ∷ [])
unfolding insert_incident
insert-ok x db db' h =
    elim (Option-cases (get_active_incident_by_correlation_key x.correlation_key db.incidents)) [
      | inl free ↦ (free, ground (arith, h, free))
      | inr (y, taken) ↦ absurd (ground (arith, h, taken))
    ]

-- One incident at most is active under each key.
abbrev pub IsUnique : Db → Type 0
IsUnique db = (key : String) → actives key db.incidents ≤ 1

own-key : (x : Incident) (key : String) → is_active_for key x ≡ true → x.correlation_key ≡ key
unfolding is_active_for
own-key x key h = str_eq→eq x.correlation_key key (ground (arith, h))

insert-IsUnique :
    (x : Incident) (db db' : Db) → insert_incident x db ≡ some db' → IsUnique db → IsUnique db'
unfolding actives
insert-IsUnique x db db' h u key =
    let (free, rows) = insert-ok x db db' h in
    let sum = ap (actives key) rows ∙ actives-append key db.incidents (x ∷ []) in
    elim (Bool-cases (is_active_for key x)) [
      | inr other ↦ ground (arith, sum, other, u key)
      | inl mine ↦
          let e = own-key x key mine in
          let zero_before : actives key db.incidents ≡ 0 =
            none-actives key db.incidents
              (ap (λ k. get_active_incident_by_correlation_key k db.incidents) (sym e) ∙ free) in
          ground (arith, sum, mine, zero_before)
    ]

abbrev seen_active : Incident → Db → Option Incident
seen_active new db = get_active_incident_by_correlation_key new.correlation_key db.incidents

insert-none :
    (x : Incident) (db : Db)
    → (insert_incident x db ≡ none) ↔ ((y : Incident) × (seen_active x db ≡ some y))
unfolding insert_incident
insert-none x db = (
  (λ h. elim (Option-cases (seen_active x db)) [
    | inl free ↦ absurd (ground (arith, h, free))
    | inr taken ↦ taken
  ]),
  (λ (y, taken). ground (arith, taken)),
)

-- Whatever the first read saw, where the stores that the insert and the last read meet hold one active
-- incident at most under each key, so does the store that is left.
pub get_or_create-IsUnique :
    (seen db later left : Db) (new x : Incident) (created : Bool)
    → IsUnique db
    → IsUnique later
    → get_or_create_incident seen db later new ≡ returned left x created
    → IsUnique left
unfolding get_or_create_incident
get_or_create-IsUnique seen db later left new x created u v h =
    elim (Option-cases (seen_active new seen)) [
      | inr (a, active) ↦ let same : db ≡ left = ground (arith, h, active) in subst IsUnique same u
      | inl unseen ↦ elim (Option-cases (insert_incident new db)) [
        | inr (db', added) ↦
            let same : db' ≡ left = ground (arith, h, unseen, added) in
            subst IsUnique same (insert-IsUnique new db db' added u)
        | inl refused ↦ elim (Option-cases (seen_active new later)) [
          | inr (b, there) ↦
              let same : later ≡ left = ground (arith, h, unseen, refused, there) in
              subst IsUnique same v
          | inl gone ↦ absurd (ground (arith, h, unseen, refused, gone))
        ]
      ]
    ]

-- The method raises exactly where its first read saw no active incident under the key, the insert met
-- one, and the last read finds none again.
pub get_or_create-raises_iff :
    (seen db later : Db) (new : Incident)
    → (get_or_create_incident seen db later new ≡ integrity_error) ↔ (
        (seen_active new seen ≡ none)
        × ((y : Incident) × (seen_active new db ≡ some y))
        × (seen_active new later ≡ none))
unfolding get_or_create_incident
get_or_create-raises_iff seen db later new = (
  (λ h. elim (Option-cases (seen_active new seen)) [
    | inr (a, active) ↦ absurd (ground (arith, h, active))
    | inl unseen ↦ elim (Option-cases (insert_incident new db)) [
      | inr (db', added) ↦ absurd (ground (arith, h, unseen, added))
      | inl refused ↦ elim (Option-cases (seen_active new later)) [
        | inr (b, there) ↦ absurd (ground (arith, h, unseen, refused, there))
        | inl gone ↦ (unseen, (insert-none new db).0 refused, gone)
      ]
    ]
  ]),
  (λ (unseen, met, gone).
      let refused = (insert-none new db).1 met in ground (arith, unseen, refused, gone)),
)
