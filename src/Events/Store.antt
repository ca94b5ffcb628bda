-- ===== src/Events/Store.antt =====
-- `store_event` of db/repositories/control_plane.py and the table `events`. Payloads are texts, times
-- seconds; `actor` is left out.
use self_healing_agent.Incident.States.{Severity}
use self_healing_agent.Text.{codes}
use self_healing_agent.Prelude.{
  any, str_eq, all, if◌then◌else◌, Option, ◌==◌, length, Bool, ℕ, List, String, [], ◌∷◌, ◌&&◌, some,
  none, not, ◌++◌,
}
pub mod Deduplication

pub data EventSource : Type 0 where
  alertmanager generic isolation_forest cloudwatch : EventSource

abbrev pub source_index : EventSource → ℕ
source_index alertmanager = 0
source_index generic = 1
source_index isolation_forest = 2
source_index cloudwatch = 3

-- The columns of `uq_event_dedup`.
pub record EventKey : Type 0 where
  pub source : EventSource
  pub resource_id : ℕ
  pub fingerprint : String
  pub dedup_window : ℕ

pub record Event : Type 0 where
  pub id : ℕ
  pub key : EventKey
  pub occurred_at : ℕ
  pub severity : Severity
  pub payload : String
  pub raw_payload : String

-- What `uq_event_dedup` compares.
unfoldable pub same_key : EventKey → EventKey → Bool
same_key k l =
    source_index k.source == source_index l.source
    && k.resource_id == l.resource_id
    && str_eq k.fingerprint l.fingerprint
    && k.dedup_window == l.dedup_window

-- `len(fingerprint) == 64` and only lowercase hexadecimal digits
unfoldable pub is_digest : String → Bool
is_digest s =
    length (codes s) == 64 && all (λ c. any (λ d. c == d) (codes "0123456789abcdef")) (codes s)

-- The `where` of the fallback.
unfoldable pub is_existing : EventKey → Event → Bool
is_existing k e =
    source_index e.key.source == source_index k.source
    && e.key.resource_id == k.resource_id
    && str_eq e.key.fingerprint k.fingerprint
    && e.key.dedup_window == k.dedup_window

unfoldable pub find_event : EventKey → List Event → Option Event
find_event k [] = none
find_event k (e ∷ events) =
    let rest = find_event k events in if is_existing k e then some e else rest

-- The event, ValueError, the IntegrityError of the primary key, and RuntimeError.
pub data StoreAnswer : Type 0 where
  stored : Event → StoreAnswer
  bad_fingerprint id_taken lost : StoreAnswer

-- `store_event`: the insert meets `events`, the fallback reads `later`.
unfoldable pub store_event_between : List Event → List Event → Event → List Event × StoreAnswer
store_event_between events later new =
    if not (is_digest new.key.fingerprint)
    then (events, bad_fingerprint)
    else if not (any (λ e. same_key e.key new.key) events)
    then (if any (λ e. e.id == new.id) events
        then (events, id_taken)
        else (events ++ new ∷ [], stored new))
    else elim (find_event new.key later) [
      | none ↦ (events, lost)
      | some existing ↦ (events, stored existing)
    ]

-- Undisturbed.
unfoldable pub store_event : List Event → Event → List Event × StoreAnswer
store_event events new = store_event_between events events new
