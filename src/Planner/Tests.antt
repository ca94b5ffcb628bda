-- ===== src/Planner/Tests.antt =====
-- A host that prints the UUID n as n letters, a target, and a restart of it.
use Prim.Native.Nat.{zero, suc}
use self_healing_agent.Planner.DryRun.Total.{RestartValid, execute_dry_run-some_iff}
use self_healing_agent.Planner.Mapper.Planned.{create_plan-planned_iff}
use self_healing_agent.Text.{lower_code, is_hex, codes}
use self_healing_agent.Planner.DryRun.{execute_dry_run, DryRun}
use self_healing_agent.Planner.Validator.Safe.{IsSafe}
use self_healing_agent.Planner.Actions.{within, is_container_id, default_registry}
use Prim.Native.String.{String}
use self_healing_agent.Planner.Schemas.{
  low_risk, Host, text, number, TargetBinding, RemediationPlan, Value,
}
use self_healing_agent.Planner.Mapper.{planned, is_restart_cause, FreshIds, create_plan}
use self_healing_agent.Planner.Mapper.Restart.{IsFaithful, IsBinding, restart_plan, restart-IsSafe}
use self_healing_agent.Planner.Validator.{validate}
use self_healing_agent.Planner.Validator.Contract.{validate-nil_iff}
use self_healing_agent.Prelude.{
  [], suc, arith, ◌↔◌, true, some, length, ◌+◌, ap, ℕ, Option, ◌≡◌, All, refl, none,
}

abbrev letters : ℕ → String
letters zero = String.[]
letters (suc n) = String.◌∷◌ "x" (letters n)

length-letters : (n : ℕ) → length (codes (letters n)) ≡ n
length-letters zero = refl
length-letters (suc n) = omega (arith, length-letters n)

abbrev read_uuid : Value → Option ℕ
read_uuid (text s) = some (length (codes s))
read_uuid _ = none

abbrev read_int : Value → Option ℕ
read_int (number n) = some n
read_int _ = none

abbrev test_host : Host
test_host = record {
  uuid_of = read_uuid;
  int_of = read_int;
  show_uuid = letters;
  digest = λ p. "d0";
}

test_host-IsFaithful : IsFaithful test_host
test_host-IsFaithful = record { int_read = λ n. refl; uuid_read = λ u. ap some (length-letters u) }

abbrev test_target : TargetBinding
test_target = record {
  resource_id = 3;
  container_id = "0123456789ab";
  service_name = "demo-api";
  binding_generation = 2;
}

test_target-IsBinding : IsBinding test_target
unfolding is_container_id within is_hex lower_code
test_target-IsBinding = record { container = refl; generation = omega arith }

abbrev test_ids : FreshIds
test_ids = record { plan = 10; step = λ k. 11 + k }

abbrev test_plan : RemediationPlan
test_plan = restart_plan test_host test_ids 1 2 test_target 1

test_plan-IsSafe : IsSafe test_host (default_registry test_host) test_plan (some test_target)
test_plan-IsSafe =
    restart-IsSafe test_host test_host-IsFaithful test_ids test_target test_target-IsBinding 1 2 1
      refl

test_plan_passes :
    validate test_host (default_registry test_host) test_plan (some test_target) true ≡ []
test_plan_passes =
    (validate-nil_iff test_host (default_registry test_host) test_plan (some test_target)).1
      test_plan-IsSafe

is_cpu_cause : is_restart_cause "CPU_SATURATION" ≡ true
unfolding is_restart_cause
is_cpu_cause = refl

create_plan-planned_iff_example :
    (((p : RemediationPlan) × (create_plan test_host test_ids 1 2 "CPU_SATURATION" test_target 1
          ≡ planned p))
      ↔ (test_target.service_name ≡ "demo-api"))
    × (((p : RemediationPlan) × (create_plan test_host test_ids 1 2 "CPU_SATURATION" test_target 1
            ≡ planned p)
          × IsSafe test_host (default_registry test_host) p (some test_target))
        ↔ (test_target.service_name ≡ "demo-api"))
create_plan-planned_iff_example =
    create_plan-planned_iff test_host test_ids 1 2 "CPU_SATURATION" test_target 1
      test_host-IsFaithful test_target-IsBinding is_cpu_cause (omega arith)

execute_dry_run-some_iff_example :
    (((d : DryRun) × (execute_dry_run test_host (default_registry test_host) test_plan [] ≡ some d))
      ↔ All (RestartValid test_host) test_plan.steps)
    × (((d : DryRun) × (execute_dry_run test_host (default_registry test_host) test_plan []
            ≡ some d)
          × (d.eligible_for_execution ≡ true))
        ↔ (IsSafe test_host (default_registry test_host) test_plan none
            × (test_plan.risk ≡ low_risk)))
execute_dry_run-some_iff_example = execute_dry_run-some_iff test_host test_plan []
