-- ===== src/Events/Tests.antt =====
-- An event that arrives twice, and an outbox whose first event reaches only the dead letter queue.
use self_healing_agent.Events.Store.Deduplication.{store_event-find}
use self_healing_agent.Prelude.{
  if◌then◌else◌, some, leb, true, ◌≡◌, ◌==◌, ℕ, List, refl, none, [], ◌∷◌,
}
use self_healing_agent.Events.Store.{
  find_event, store_event, is_digest, Event, EventKey, stored, alertmanager,
}
use self_healing_agent.Events.Outbox.{
  not_sent, lost_reply, replied, is_replied, appended, CallEnd, dead_letter, publish_with_retry,
  publish_event, publish_all, Redis, sweep_and_publish, is_pending, fetch_pending_outbox_events,
}
use self_healing_agent.Incident.Store.{OutboxEvent, pending, IncidentPayload}
use self_healing_agent.Incident.States.{high, detected}

abbrev key : EventKey
key = record {
  source = alertmanager;
  resource_id = 3;
  fingerprint = "0123456789abcdef0123456789abcdef0123456789abcdef0123456789abcdef";
  dedup_window = 600;
}

abbrev first_event : Event
first_event = record {
  id = 1;
  key = key;
  occurred_at = 610;
  severity = high;
  payload = "{}";
  raw_payload = "{}";
}

abbrev second_event : Event
second_event = record {
  id = 2;
  key = key;
  occurred_at = 640;
  severity = high;
  payload = "{}";
  raw_payload = "{}";
}

is_hex_digest : is_digest key.fingerprint ≡ true
unfolding is_digest
is_hex_digest = refl

store_event-find_example :
    (after : List Event) × (e : Event) × (store_event [] first_event ≡ (after, stored e))
    × (e.key ≡ key)
    × (find_event key after ≡ some e)
    × (store_event after second_event ≡ (after, stored e))
store_event-find_example = store_event-find [] first_event second_event is_hex_digest refl refl

abbrev payload : IncidentPayload
payload = record {
  incident_id = 7;
  state = detected;
  version = 1;
  severity = high;
  correlation_key = "3:cpu";
  resource_id = 3;
}

abbrev outbox_event : ℕ → OutboxEvent
outbox_event i = record {
  id = i;
  event_type = "incident.detected";
  aggregate_id = 7;
  aggregate_version = 1;
  payload = payload;
  status = pending;
  retry_count = 0;
  last_error = none;
  published_at = none;
}

abbrev rows : List OutboxEvent
rows = outbox_event 1 ∷ outbox_event 2 ∷ []

abbrev empty_redis : Redis
empty_redis = record { stream = []; dlq = []; calls = 0 }

-- The first call loses its reply, the next two fail.
abbrev replies_later : ℕ → CallEnd
replies_later n = if leb 3 n then replied else if n == 0 then lost_reply else not_sent

first_is_dead_lettered :
    (sweep_and_publish replies_later "timeout" 900 50 rows empty_redis).redis.dlq
    ≡ outbox_event 1 ∷ []
unfolding sweep_and_publish publish_all publish_event publish_with_retry dead_letter appended
    is_replied fetch_pending_outbox_events is_pending
first_is_dead_lettered = refl
