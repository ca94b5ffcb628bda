-- ===== src/Diagnosis/Tests.antt =====
-- A container that has exited while the alert of its processor time still fires.
use self_healing_agent.Diagnosis.Engine.Contract.{diagnose-actionable_iff, Restartable, IsObserved}
use self_healing_agent.Diagnosis.Schemas.{running, exited, ObservationBundle}
use self_healing_agent.Prelude.{false, [], ◌↔◌, ◌∷◌, true, some, ◌≡◌, none}
use self_healing_agent.Diagnosis.Engine.Decided.{diagnose-Decided, Cites, Decided}
use self_healing_agent.Diagnosis.Engine.{diagnose, default_rules}

abbrev exited_bundle : ObservationBundle
exited_bundle = record {
  container_status = exited;
  up_metric = some 0;
  normalized_cpu = some 8000;
  readiness_success_ratio = some 0;
  latest_readiness_code = none;
  firing_alerts = "HighCpuSaturation" ∷ [];
  redis_connected = some true;
  db_connections_active = some 3;
  recent_log_errors = [];
  evidence_id_map = ("docker:inspect", "e1") ∷ ("prometheus:cpu_rate", "e2") ∷ [];
  prometheus = some "COMPLETE";
  freshness = some 12000;
  is_telemetry_unavailable = false;
}

-- The same container, running and busy, while the connection pool is exhausted.
abbrev starved_bundle : ObservationBundle
starved_bundle = record {
  container_status = running;
  up_metric = some 10000;
  normalized_cpu = some 8000;
  readiness_success_ratio = some 0;
  latest_readiness_code = some 503;
  firing_alerts = "HighCpuSaturation" ∷ [];
  redis_connected = some true;
  db_connections_active = some 8;
  recent_log_errors = [];
  evidence_id_map = ("prometheus:db_connections", "e1") ∷ ("prometheus:cpu_rate", "e2") ∷ [];
  prometheus = some "COMPLETE";
  freshness = some 12000;
  is_telemetry_unavailable = false;
}

diagnose-actionable_iff_example :
    ((diagnose default_rules 7 exited_bundle none).is_actionable ≡ true)
    ↔ (IsObserved exited_bundle × Restartable exited_bundle)
diagnose-actionable_iff_example = diagnose-actionable_iff 7 exited_bundle none

diagnose-Decided_example :
    Decided (diagnose default_rules 7 starved_bundle none)
    × Cites (diagnose default_rules 7 starved_bundle none).evidence_ids starved_bundle
diagnose-Decided_example = diagnose-Decided 7 starved_bundle none
