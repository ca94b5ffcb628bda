-- ===== src/Adapter/Precheck.antt =====
-- `DockerExecutionAdapter.precheck`.
pub mod Contract
use self_healing_agent.Text.{codes, lower_code, codes_eq, strip}
use self_healing_agent.Prelude.{
  [], is_empty, map, or_default, is_some, ◌==◌, ◌||◌, leb, ◌&&◌, keep, some, not, str_eq, none,
  String, List, if◌then◌else◌, ℕ, Option,
}
use self_healing_agent.Adapter.Intent.{ContainerSnapshot, ExecutionIntent}
use self_healing_agent.Approvals.Store.{Approval, is_of_plan, latest}
use self_healing_agent.Lock.Service.{AutomationMode, disabled, enabled, Locks}
use self_healing_agent.Lock.Service as Lock

-- PrecheckFailedError, TargetRecreatedError, the lock service's QuarantinedResourceError, and what
-- `take_snapshot` raises.
pub data PrecheckError : Type 0 where
  precheck_failed target_recreated quarantined_resource snapshot_failed : PrecheckError

-- What `inspect_container` does: it returns the container with its labels, raises ContainerNotFoundError, or
-- another exception.
pub data Inspection : Type 0 where
  found : (String → Option String) → Inspection
  not_found inspection_error : Inspection

-- The keys of a resource's labels that the adapter reads.
pub record Resource : Type 0 where
  pub environment : String
  pub docker_container_id : Option String
  pub container_id : Option String
  pub binding_generation : Option ℕ

pub record PolicyDecision : Type 0 where
  pub incident_id : ℕ
  pub plan_id : ℕ
  pub decision : String
  pub created_at : ℕ

pub record ControlRow : Type 0 where
  pub mode : String
  pub emergency_stopped_resources : List ℕ

-- The rows that the precheck reads, the clock, and the snapshot at its end.
pub record Facts : Type 0 where
  pub inspection : Inspection
  pub resource : Option Resource
  pub decisions : List PolicyDecision
  pub approvals : List Approval
  pub control : Option ControlRow
  pub locks : Locks
  pub now : ℕ
  pub snapshot : Option ContainerSnapshot

-- `str(labels.get(key, "")).strip()`
unfoldable pub label : (String → Option String) → String → List ℕ
label labels key = strip (or_default (labels key) "")

-- Step 3.
unfoldable pub check_labels : (String → Option String) → Option PrecheckError
check_labels labels =
    if not (codes_eq (map lower_code (label labels "self-healing.managed")) (codes "true"))
    then some precheck_failed
    else if not (codes_eq (label labels "com.docker.compose.service") (codes "demo-api"))
    then some precheck_failed
    else if not (is_empty (label labels "com.docker.compose.project"))
        && not (codes_eq (label labels "com.docker.compose.project") (codes "self-healing-agent"))
    then some precheck_failed
    else none

-- `res_labels.get("docker_container_id") or res_labels.get("container_id")`; an empty text is false.
unfoldable pub non_empty : Option String → Option String
non_empty none = none
non_empty (some s) = if str_eq s "" then none else some s

unfoldable pub bound_container : Resource → Option String
bound_container r = elim (non_empty r.docker_container_id) [
  | some s ↦ some s
  | none ↦ non_empty r.container_id
]

-- Step 4.
unfoldable pub check_binding : ExecutionIntent → Resource → Option PrecheckError
check_binding intent r =
    if not (str_eq r.environment "local") then some precheck_failed else elim (bound_container r) [
      | none ↦ some precheck_failed
      | some id ↦
          if not (str_eq id intent.container_id)
          then some target_recreated
          else if not (or_default r.binding_generation 1 == intent.binding_generation)
          then some target_recreated
          else none
    ]

-- `get_latest_policy_decision`
unfoldable pub get_latest_policy_decision : ℕ → ℕ → List PolicyDecision → Option PolicyDecision
get_latest_policy_decision incident plan rows =
    latest (λ (d : PolicyDecision). d.created_at)
      (keep (λ (d : PolicyDecision). d.incident_id == incident && d.plan_id == plan) rows)

-- `get_automation_controls`
unfoldable pub get_automation_controls : Option ControlRow → ControlRow
get_automation_controls none = record {
  mode = "APPROVAL_REQUIRED";
  emergency_stopped_resources = [];
}
get_automation_controls (some c) = c

-- The grant that is looked up.
unfoldable pub granted_approval : ExecutionIntent → List Approval → Option Approval
granted_approval intent rows =
    latest (λ (a : Approval). a.created_at)
      (keep
        (λ (a : Approval).
          is_of_plan intent.plan_id intent.plan_version a && str_eq a.decision "APPROVE")
        rows)

unfoldable pub check_grant : Option Approval → ℕ → Option PrecheckError
check_grant none now = some precheck_failed
check_grant (some a) now = if leb a.expires_at now then some precheck_failed else none

-- Step 5, on the latest decision, the control row and the grant.
unfoldable pub check_decision :
    Option PolicyDecision → ControlRow → Option Approval → ℕ → Option PrecheckError
check_decision none c grant now = some precheck_failed
check_decision (some d) c grant now =
    if str_eq d.decision "DENY"
    then some precheck_failed
    else if str_eq d.decision "DEFER"
    then some precheck_failed
    else if str_eq d.decision "REQUIRE_APPROVAL" || str_eq c.mode "APPROVAL_REQUIRED"
    then check_grant grant now
    else none

-- The columns of the control row that the lock service reads.
unfoldable pub lock_control : ControlRow → Lock.AutomationControl
lock_control c = record {
  mode = if str_eq c.mode "DISABLED" then disabled else enabled;
  emergency_stopped_resources = c.emergency_stopped_resources;
}

-- Step 6.
unfoldable pub check_control : ControlRow → Locks → ℕ → Option PrecheckError
check_control c locks resource_id =
    elim (Lock.check_safety (some (lock_control c)) locks resource_id) [
      | none ↦ none
      | some e ↦ some quarantined_resource
    ]

-- The first error of a list of checks.
infixr 5 ◌orelse◌
abbrev pub ◌orelse◌ : Option PrecheckError → Option PrecheckError → Option PrecheckError
none orelse later = later
some e orelse later = some e

-- Steps 4 to 6, one transaction.
unfoldable pub check_rows : ExecutionIntent → Facts → Option PrecheckError
check_rows intent facts = elim facts.resource [
  | none ↦ some precheck_failed
  | some r ↦
      let c = get_automation_controls facts.control in
      check_binding intent r
      orelse check_decision
          (get_latest_policy_decision intent.incident_id intent.plan_id facts.decisions) c
          (granted_approval intent facts.approvals) facts.now
      orelse check_control c facts.locks intent.resource_id
]

-- The control row after the precheck, which is written where there was none and the transaction commits,
-- and the error that is raised.
unfoldable pub precheck : ExecutionIntent → Facts → Option ControlRow × Option PrecheckError
precheck intent facts =
    if not (str_eq intent.service_name "demo-api")
    then (facts.control, some precheck_failed)
    else elim facts.inspection [
      | not_found ↦ (facts.control, some target_recreated)
      | inspection_error ↦ (facts.control, some precheck_failed)
      | found labels ↦ elim (check_labels labels orelse check_rows intent facts) [
        | some e ↦ (facts.control, some e)
        | none ↦
            let after = some (get_automation_controls facts.control) in
            if is_some facts.snapshot then (after, none) else (after, some snapshot_failed)
      ]
    ]
