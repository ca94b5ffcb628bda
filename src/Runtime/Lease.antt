-- ===== src/Runtime/Lease.antt =====
-- The table `workflow_leases`, by the incident that is its primary key. Times are seconds.
use self_healing_agent.Incident.Store.{Incident, find_incident}
use self_healing_agent.Prelude.{
  str_eq, true, not, ltb, some_and, leb, ◌+◌, List, false, ◌==◌, Option, Bool, if◌then◌else◌, ℕ,
  String, some, none, ◌||◌, ◌&&◌,
}
pub mod Kept

pub record WorkflowLease : Type 0 where
  pub owner : String
  pub token : ℕ
  pub acquired_at : ℕ
  pub expires_at : ℕ
  pub incident_version : ℕ

abbrev pub Leases : Type 0
Leases = ℕ → Option WorkflowLease

unfoldable pub put_lease : ℕ → Option WorkflowLease → Leases → Leases
put_lease i row leases j = if j == i then row else leases j

-- LookupError, the two ConflictErrors, and the violated `chk_workflow_lease_expiry`.
pub data LeaseError : Type 0 where
  incident_missing version_mismatch leased_elsewhere expiry_violated : LeaseError

pub data LeaseAnswer (A : Type 0) : Type 0 where
  answered : A → LeaseAnswer A
  raised : LeaseError → LeaseAnswer A

-- The row that the upsert writes, where it writes one; the constraint is checked first.
unfoldable pub upsert_lease :
    String → ℕ → ℕ → ℕ → ℕ → Option WorkflowLease → LeaseAnswer WorkflowLease
upsert_lease owner token ttl_seconds now version row =
    let lease : WorkflowLease = record {
      owner = owner;
      token = token;
      acquired_at = now;
      expires_at = now + ttl_seconds;
      incident_version = version;
    } in
    if leb (now + ttl_seconds) now then raised expiry_violated else elim row [
      | none ↦ answered lease
      | some old ↦
          if leb old.expires_at now || str_eq old.owner owner
          then answered lease
          else raised leased_elsewhere
    ]

-- `acquire_incident_lease`; `token` is the fresh UUID.
unfoldable pub acquire_incident_lease :
    String → ℕ → ℕ → Option ℕ → ℕ → List Incident → Leases → ℕ → Leases × LeaseAnswer ℕ
acquire_incident_lease owner token ttl_seconds version now incidents leases i =
    elim (find_incident i incidents) [
      | none ↦ (leases, raised incident_missing)
      | some incident ↦
          if some_and version (λ v. not (incident.version == v))
          then (leases, raised version_mismatch)
          else elim (upsert_lease owner token ttl_seconds now incident.version (leases i)) [
            | answered lease ↦ (put_lease i (some lease) leases, answered token)
            | raised e ↦ (leases, raised e)
          ]
    ]

-- `verify_incident_lease`
unfoldable pub verify_incident_lease : ℕ → Option ℕ → ℕ → List Incident → Leases → ℕ → Bool
verify_incident_lease token expected_version now incidents leases i = elim (leases i) [
  | none ↦ false
  | some lease ↦
      if not (lease.token == token)
      then false
      else if leb lease.expires_at now
      then false
      else elim expected_version [
        | none ↦ true
        | some v ↦ some_and (find_incident i incidents) (λ x. x.version == v)
      ]
]

-- `renew_incident_lease`; a renewal that ends before the lease was acquired violates the constraint.
unfoldable pub renew_incident_lease : ℕ → ℕ → ℕ → Leases → ℕ → Leases × LeaseAnswer Bool
renew_incident_lease token ttl_seconds now leases i = elim (leases i) [
  | none ↦ (leases, answered false)
  | some lease ↦
      if lease.token == token && ltb now lease.expires_at
      then (if leb (now + ttl_seconds) lease.acquired_at
          then (leases, raised expiry_violated)
          else (
            put_lease i (some (record lease { expires_at = now + ttl_seconds })) leases,
            answered true,
          ))
      else (leases, answered false)
]

-- `release_incident_lease`
unfoldable pub release_incident_lease : ℕ → Leases → ℕ → Leases
release_incident_lease token leases i = elim (leases i) [
  | none ↦ leases
  | some lease ↦ if lease.token == token then put_lease i none leases else leases
]
