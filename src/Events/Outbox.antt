-- ===== src/Events/Outbox.antt =====
-- The sweep of the outbox. Redis is its two streams and the calls made so far; how each call of XADD ends is an
-- argument.
use self_healing_agent.Incident.Store.{OutboxEvent, OutboxStatus, pending, published, failed_status}
use self_healing_agent.Prelude.{
  ◌++◌, ◌==◌, if◌then◌else◌, String, ◌+◌, List, ℕ, Bool, [], ◌∷◌, zero, suc, true, false, some,
}
pub mod Sweep

pub record Redis : Type 0 where
  pub stream : List OutboxEvent
  pub dlq : List OutboxEvent
  pub calls : ℕ

-- A call returns, or raises: its reply is lost after the server has appended the message, or nothing is appended.
pub data CallEnd : Type 0 where
  replied lost_reply not_sent : CallEnd

-- The messages of a stream after a call.
unfoldable pub appended : CallEnd → OutboxEvent → List OutboxEvent → List OutboxEvent
appended not_sent event messages = messages
appended _ event messages = messages ++ event ∷ []

unfoldable pub is_replied : CallEnd → Bool
is_replied replied = true
is_replied _ = false

unfoldable pub is_pending : OutboxStatus → Bool
is_pending pending = true
is_pending _ = false

-- `fetch_pending_outbox_events`
unfoldable pub fetch_pending_outbox_events : ℕ → List OutboxEvent → List OutboxEvent
fetch_pending_outbox_events zero rows = []
fetch_pending_outbox_events (suc limit) [] = []
fetch_pending_outbox_events (suc limit) (r ∷ rows) =
    let with_it = fetch_pending_outbox_events limit rows in
    let without = fetch_pending_outbox_events (suc limit) rows in
    if is_pending r.status then r ∷ with_it else without

-- `mark_outbox_published`
unfoldable pub mark_outbox_published : ℕ → ℕ → List OutboxEvent → List OutboxEvent
mark_outbox_published i now [] = []
mark_outbox_published i now (r ∷ rows) =
    (if r.id == i then record r { status = published; published_at = some now } else r)
    ∷ mark_outbox_published i now rows

-- `mark_outbox_failed`
unfoldable pub mark_outbox_failed : ℕ → String → List OutboxEvent → List OutboxEvent
mark_outbox_failed i error [] = []
mark_outbox_failed i error (r ∷ rows) =
    (if r.id == i
      then record r {
        status = failed_status;
        last_error = some error;
        retry_count = r.retry_count + 1;
      }
      else r)
    ∷ mark_outbox_failed i error rows

-- After the last attempt: the dead letter queue, or the error.
unfoldable pub dead_letter : (ℕ → CallEnd) → OutboxEvent → Redis → Redis × Bool
dead_letter ends event redis =
    let end = ends redis.calls in
    (record redis { dlq = appended end event redis.dlq; calls = redis.calls + 1 }, is_replied end)

-- `publish_with_retry` with as many attempts left: whether it returns.
unfoldable pub publish_with_retry : (ℕ → CallEnd) → ℕ → OutboxEvent → Redis → Redis × Bool
publish_with_retry ends zero event redis = dead_letter ends event redis
publish_with_retry ends (suc attempts) event redis =
    let end = ends redis.calls in
    let sent : Redis = record redis {
      stream = appended end event redis.stream;
      calls = redis.calls + 1;
    } in
    let again = publish_with_retry ends attempts event sent in
    if is_replied end then (sent, true) else again

pub record Swept : Type 0 where
  pub rows : List OutboxEvent
  pub redis : Redis
  pub processed_count : ℕ

-- The body of the loop; `error` is the text of what was raised.
unfoldable pub publish_event : (ℕ → CallEnd) → String → ℕ → OutboxEvent → Swept → Swept
publish_event ends error now event s =
    let sent = publish_with_retry ends 3 event s.redis in
    if sent.1
    then record {
      rows = mark_outbox_published event.id now s.rows;
      redis = sent.0;
      processed_count = s.processed_count + 1;
    }
    else record {
      rows = mark_outbox_failed event.id error s.rows;
      redis = sent.0;
      processed_count = s.processed_count;
    }

unfoldable pub publish_all : (ℕ → CallEnd) → String → ℕ → List OutboxEvent → Swept → Swept
publish_all ends error now [] s = s
publish_all ends error now (event ∷ events) s =
    publish_all ends error now events (publish_event ends error now event s)

-- `sweep_and_publish`
unfoldable pub sweep_and_publish : (ℕ → CallEnd) → String → ℕ → ℕ → List OutboxEvent → Redis → Swept
sweep_and_publish ends error now batch_size rows redis =
    publish_all ends error now (fetch_pending_outbox_events batch_size rows)
      (record { rows = rows; redis = redis; processed_count = 0 })
