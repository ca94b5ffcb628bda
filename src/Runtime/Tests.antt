-- ===== src/Runtime/Tests.antt =====
-- Two workers at one incident, and a wake-up that two of them claim.
use self_healing_agent.Runtime.Lease.Kept.{
  incident_lease-kept, release, run_calls, acquire, Foreign, LeaseEvent, is_foreign_call,
}
use self_healing_agent.Prelude.{true, [], arith, All, ◌∷◌, some, List, ◌≡◌, refl, none}
use self_healing_agent.Runtime.Lease.{
  raised, acquire_incident_lease, LeaseError, verify_incident_lease, WorkflowLease, Leases,
  put_lease,
}
use self_healing_agent.Runtime.Schedule.{WorkflowSchedule, waiting}

abbrev first_lease : WorkflowLease
first_lease = record {
  owner = "worker-a";
  token = 5;
  acquired_at = 100;
  expires_at = 130;
  incident_version = 2;
}

abbrev leases : Leases
leases = put_lease 7 (some first_lease) (λ i. none)

-- The other worker tries to take the lease over and to release it with a token of its own.
abbrev calls : List LeaseEvent
calls =
    record { call = acquire "worker-b" 6 30 none; at = 110; incident = 7; incidents = [] }
    ∷ record { call = release 6; at = 115; incident = 7; incidents = [] }
    ∷ []

first_row : leases 7 ≡ some first_lease
unfolding put_lease
first_row = refl

first_verified : verify_incident_lease 5 none 120 [] leases 7 ≡ true
unfolding verify_incident_lease put_lease
first_verified = refl

all-Foreign : All (Foreign "worker-a" 5 120 7) calls
unfolding is_foreign_call
all-Foreign = ((λ h. (refl, omega arith)), ((λ h. (refl, omega arith)), tt))

incident_lease-kept_example :
    (verify_incident_lease 5 none 120 [] (run_calls calls leases) 7 ≡ true)
    × ((e : LeaseError) × (acquire_incident_lease "worker-b" 8 30 none 118 []
            (run_calls calls leases)
            7
          ≡ (run_calls calls leases, raised e)))
incident_lease-kept_example =
    incident_lease-kept "worker-a" 5 120 7 calls [] leases first_lease first_row refl first_verified
      all-Foreign "worker-b" 8 30 118 none [] refl (omega arith)

abbrev wake_ups : List WorkflowSchedule
wake_ups =
    record {
      id = 1;
      incident_id = 7;
      incident_version = 2;
      next_run_at = 100;
      wait_reason = "cooldown";
      deadline = none;
      status = waiting;
    }
    ∷ []
