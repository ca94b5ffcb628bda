-- ===== src/Events/Outbox/Sweep.antt =====
-- What a sweep leaves.
use self_healing_agent.Incident.Store.{OutboxEvent}
use self_healing_agent.Prelude.{suc, ◌+◌, ◌&&◌, ◌&&◌, ◌+◌, length, ◌==◌, ℕ, Bool}
use self_healing_agent.Events.Outbox.{suc, Redis, is_pending}

abbrev is_open : ℕ → OutboxEvent → Bool
is_open i r = r.id == i && is_pending r.status

-- Messages in the two streams.
abbrev pub delivered : Redis → ℕ
delivered redis = length redis.stream + length redis.dlq
