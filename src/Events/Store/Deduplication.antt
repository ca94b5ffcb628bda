-- ===== src/Events/Store/Deduplication.antt =====
-- An event that is stored is found, and is what every later event with its key is answered with.
use self_healing_agent.Prelude.{
  ap, str_eq→eq, refl, ◌∙◌, ◌↔◌, ==_refl, inl, inr, Option-cases, sym, subst, Bool-cases, ◌==◌,
  arith, str_eq_refl, any, true, some, ◌≡◌, List, [], ◌∷◌, false, none, ◌++◌,
}
use self_healing_agent.Events.Store.{
  is_existing, EventSource, source_index, Event, EventKey, stored, same_key, find_event,
  store_event, store_event_between, is_digest,
}

source_index-inj : (s t : EventSource) → source_index s ≡ source_index t → s ≡ t
source_index-inj s t h = ground (arith, h)

-- The constraint and the fallback compare the whole key.
same_key_iff : (k l : EventKey) → (same_key k l ≡ true) ↔ (k ≡ l)
unfolding same_key
same_key_iff k l = (
  (λ h.
      let s = source_index-inj k.source l.source (ground (arith, h)) in
      let r : k.resource_id ≡ l.resource_id = ground (arith, h) in
      let f = str_eq→eq k.fingerprint l.fingerprint (ground (arith, h)) in
      let w : k.dedup_window ≡ l.dedup_window = ground (arith, h) in cc (s, r, f, w)),
  λ e.
      subst (λ (x : EventKey). same_key k x ≡ true) e
        (let f = str_eq_refl k.fingerprint in
          let s = ==_refl (source_index k.source) in
          let r = ==_refl k.resource_id in
          let w = ==_refl k.dedup_window in ground (arith, f, s, r, w)),
)

existing_same : (k : EventKey) (e : Event) → is_existing k e ≡ same_key e.key k
unfolding is_existing same_key
existing_same k e = refl

find-key :
    (k : EventKey) (events : List Event) (e : Event) → find_event k events ≡ some e → e.key ≡ k
unfolding find_event
find-key k [] e h = absurd (ground (arith, h))
find-key k (x ∷ events) e h = elim (Bool-cases (is_existing k x)) [
  | inl hit ↦
      let same : x ≡ e = ground (arith, h, hit) in
      ap (λ (y : Event). y.key) (sym same)
      ∙ (same_key_iff x.key k).0 (sym (existing_same k x) ∙ hit)
  | inr miss ↦ find-key k events e (ground (arith, h, miss))
]

-- The fallback finds an event exactly where the constraint meets one.
find-any :
    (k : EventKey) (events : List Event)
    → any (λ e. same_key e.key k) events
      ≡ elim (find_event k events) [ none ↦ false | some e ↦ true ]
unfolding find_event
find-any k [] = refl
find-any k (x ∷ events) =
    let rest = find-any k events in
    let same = existing_same k x in
    elim (Bool-cases (is_existing k x)) [
      | inl hit ↦ ground (arith, hit, same)
      | inr miss ↦ ground (arith, miss, same, rest)
    ]

find-added :
    (events : List Event) (new : Event)
    → find_event new.key events ≡ none
    → find_event new.key (events ++ new ∷ []) ≡ some new
unfolding find_event
find-added [] new h =
    let own = existing_same new.key new ∙ (same_key_iff new.key new.key).1 refl in
    ground (arith, own)
find-added (x ∷ events) new h = elim (Bool-cases (is_existing new.key x)) [
  | inl hit ↦ absurd (ground (arith, h, hit))
  | inr miss ↦
      let rec = find-added events new (ground (arith, h, miss)) in ground (arith, miss, rec)
]

-- A found event is what an event under its key is answered with.
store-found :
    (events : List Event) (e other : Event)
    → is_digest other.key.fingerprint ≡ true
    → find_event other.key events ≡ some e
    → store_event events other ≡ (events, stored e)
unfolding store_event store_event_between
store-found events e other ok h = let met = find-any other.key events in ground (arith, ok, h, met)

store-first :
    (events : List Event) (new : Event)
    → is_digest new.key.fingerprint ≡ true
    → any (λ e. e.id == new.id) events ≡ false
    → find_event new.key events ≡ none
    → store_event events new ≡ (events ++ new ∷ [], stored new)
unfolding store_event store_event_between
store-first events new ok free h =
    let met = find-any new.key events in ground (arith, ok, free, h, met)

-- Where the fingerprint is a digest and the identifier is free, an event is stored: one with its source, resource,
-- fingerprint and window is found in the table afterwards and is returned, and each other event with the same key, stored next, is
-- answered with it and changes nothing.
pub store_event-find :
    (events : List Event) (new other : Event)
    → is_digest new.key.fingerprint ≡ true
    → any (λ e. e.id == new.id) events ≡ false
    → other.key ≡ new.key
    → (after : List Event) × (e : Event) × (store_event events new ≡ (after, stored e))
      × (e.key ≡ new.key)
      × (find_event new.key after ≡ some e)
      × (store_event after other ≡ (after, stored e))
store_event-find events new other ok free same =
    let fine : is_digest other.key.fingerprint ≡ true =
      subst (λ (k : EventKey). is_digest k.fingerprint ≡ true) (sym same) ok in
    let move : (e : Event) (rows : List Event)
        → find_event new.key rows ≡ some e
        → find_event other.key rows ≡ some e =
      λ e rows. subst (λ (k : EventKey). find_event k rows ≡ some e) (sym same) in
    elim (Option-cases (find_event new.key events)) [
      | inr (e, here) ↦ (
        events,
        e,
        store-found events e new ok here,
        find-key new.key events e here,
        here,
        store-found events e other fine (move e events here),
      )
      | inl gone ↦
          let found = find-added events new gone in
          let after = events ++ new ∷ [] in
          (
            after,
            new,
            store-first events new ok free gone,
            refl,
            found,
            store-found after new other fine (move new after found),
          )
    ]
