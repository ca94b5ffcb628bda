-- ===== src/Lib.antt =====
-- Verification of the self-healing agent: a control plane that diagnoses incidents of containers, plans a
-- repair, has a policy engine and a person judge it, executes it once under a lease and verifies the
-- recovery.
--
-- Which file models which part (paths from the root of the repository):
-- - Prelude: names of the libraries, Boolean tests over native numbers and texts, lists. Text: the text
--   operations of Python that the program uses.
-- - Policy: packages/policy-engine/policyengine. Schemas holds schemas/models.py, Rules the gates of
--   rules/, Engine `PolicyEngine.evaluate`. Engine/Permitted states the contract with no gate in it;
--   Engine/Gates, Approval, Outcome, Bits and Decisions lead from the code to it.
-- - Incident: apps/control-api/app. States holds sharedmodels/enums.py and
--   domain/incidents/state_machine.py; Store the rows; Creation
--   `get_or_create_incident`; Transition the methods `transition` and
--   `require_incident_approval` of db/repositories/control_plane.py. Transition/Laws and Contract say when they
--   succeed and what they write, Races what two workers do to each other, Histories what any sequence
--   of requests does.
-- - Execution: `record_execution` and `finish_execution` of the same repository. Idempotent is about the
--   first, Moves and Once about the second.
-- - Lock: services/resources/lock.py. Service holds `ResourceLockService`, Laws single calls, Grants what
--   a grant is good for, Sequences what any sequence of calls keeps.
-- - Verify: packages/agent-core/agentcore/verification. Metrics and Sample hold one evaluation of evaluator.py,
--   Session the loop of verifier.py, Verdict its verdict; Thresholds, Passing and Contract state
--   what a passing sample has seen; Streaks is the invariant of the loop, Recovery and Healthy are
--   about what passes and that it ends.
-- - Workflow: packages/agent-core/agentcore. Graph holds the edges of graph/builder.py and the node
--   nodes/approval.py, Retries runtime/policy.py and verification/scheduling.py; Walks is about runs of
--   the graph.
-- - Diagnosis: packages/diagnosis/diagnosis. Schemas holds schemas.py and sharedmodels/diagnosis.py, Rules the
--   five rules, Engine `DeterministicDiagnosisEngine`; Engine/Order says which rule answers,
--   Engine/Contract states what is actionable with no rule in it, Engine/Decided what a diagnosis says.
-- - Planner: packages/action-catalog/actioncatalog. Schemas holds sharedmodels/plan.py, Actions the
--   parameter schemas and the registry, Validator, Mapper and DryRun the three modules of planner/.
--   Validator/Safe and Sound state when a plan is taken, Checks and Contract lead from the code to it;
--   Mapper/Restart and Planned are about the plans that are made, DryRun/Total about simulations.
-- - Runtime: packages/agent-core/agentcore/runtime, by the repository methods that lease.py and
--   scheduler.py call. Lease and Lease/Kept are about the leases of incidents, Schedule and
--   Schedule/Claims about wake-ups.
-- - Events: `store_event` and the outbox methods of the repository, services/outbox/service.py and
--   workers/incidentpublisher.py. Store/Deduplication is about the insert, Outbox/Sweep
--   about what a sweep leaves.
-- - Approvals: api/approvals.py of apps/control-api/app and packages/policy-engine/policyengine/approvals. Store and
--   Latest are about the table, Submit holds `submit_approval`, Manager `ApprovalLifecycleManager`;
--   Submit/Granted and Refused take requests apart, Contract says which decide and what they leave, Lasting what a decision is
--   good for later.
-- - Adapter: packages/provider-adapters/provideradapters. Intent holds base.py and `reconcile`, Precheck and Execute the
--   two methods of docker/adapter.py, over the tables of Execution and Lock, World what a call meets and raises.
--   Precheck/Contract states what a precheck has seen; Execute/Claimed and Started lead to Once, which is about the restart and its guards;
--   Settled and Answers are about how calls end.
-- - Nodes: packages/agent-core/agentcore/nodes. Store holds the move that the nodes share, Execute, Verify, Close and
--   Policy the nodes execution.py, verification.py, resolution.py with escalation.py, and policy.py; Ends and
--   Verdicts say how they end.
--
-- How they interact: a diagnosis that is actionable names a cause for which the planner makes a
-- restart plan, which the validator has to take; the policy engine's decision and the approvals choose
-- the edges of Workflow; the nodes of the graph move incidents by `transition`, record executions,
-- hold leases of Lock through the adapter, and run the verifier, whose verdict chooses between resolution and a retry. A
-- worker holds the lease of an incident while it runs the graph, and is woken by schedules; a new
-- event is stored once, and what changes is told to others through the outbox.
--
-- Conventions: state is passed and returned. Each transaction is a function of the store that it
-- commits to; where a method reads first and writes later, the store that it read is an argument of its
-- own, so other workers may have committed anything in between. UUIDs are numbers; fresh ones, the
-- clock and `now()` are arguments. Times are seconds, in the policy engine
-- microseconds and in diagnosis milliseconds; confidences and ratios are ten-thousandths, metric values
-- of the verifier millionths. Exceptions are values: `none`, or the `err` of a result.
--
-- In Adapter and Nodes what other workers commit before each transaction is a function of the tables that is
-- given, and one transaction reads and writes the same tables.
--
-- Parameters for code of others: what pydantic reads integers and UUIDs from and how UUIDs are printed
-- (`Planner.Schemas.Host`, with the digest of a plan), how it writes models down and what
-- `datetime.fromisoformat` reads (`Adapter.Intent.Host`), what Docker answers, and how each call of Redis
-- ends.
--
-- Fuel: `Verify.Session.observe` alone takes fuel. One round for each second of the profile's longest
-- duration, and one more, is enough where rounds are at least a second apart.
--
-- Not modelled: what the nodes for diagnosis and planning persist, and the context that the policy node builds; the
-- runner and the checkpoints; the collection of evidence; ingestion, correlation and redaction; the health
-- score; routes but the approval, authentication, the dashboard and the demonstration targets, which are input and
-- output. The lemmas about the graph are given the nodes as a function. Messages and log texts are left out.
pub mod Prelude
pub mod Text
pub mod Policy
pub mod Incident
pub mod Execution
pub mod Lock
pub mod Verify
pub mod Workflow
pub mod Diagnosis
pub mod Planner
pub mod Runtime
pub mod Events
pub mod Approvals
pub mod Adapter
pub mod Nodes
