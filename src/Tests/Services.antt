-- ===== src/Tests/Services.antt =====
-- Tests of the services.
use meta_loop.Memory.Sessions.{record_session}
use meta_loop.Services.Sessions.Checked.{Fits, request_session-Fits}
use meta_loop.Memory.Queue.{enqueue}
use meta_loop.Memory.Ledgers.{create_intake}
use meta_loop.Services.Allocation.Policy.{policy_writable_iff}
use meta_loop.Services.Sessions.{request_session, request_new, check_request}
use meta_loop.Domain.Event.{new_event}
use meta_loop.Base.Json.{field, str, end, Fields-discrete}
use meta_loop.Memory.Events.{append, append_new, history}
use meta_loop.Memory.Tasks.{update_task, create_task}
use meta_loop.Services.Transitions.Stored.{gated-IsAuthorized, transition_task-stores}
use meta_loop.Services.Intake.Repeat.{start_repeat}
use meta_loop.Base.Int.{pos, ℤ-discrete, ◌+ℤ◌}
use meta_loop.Domain.Task.{
  transition, is_allowed, new_source, new_repository, check_risk, create, Task,
}
use meta_loop.Tests.Data.{at_design, open_gate, fresh_task, at_work, evt}
use meta_loop.Domain.Enums.{
  r1, implementer, implementing, TaskStatus-discrete, Role-discrete, RiskClass-discrete, r3,
  design_reviewer,
}
use meta_loop.Base.{
  some, ok, ◌≡◌, true, ◌∷◌, none, [], false, ◌↔◌, inl, ◌≢◌, refl, String-discrete, get, string_eq,
  ℕ_discrete, ◌++◌,
}
use meta_loop.Services.Allocation.{Manager, policy}
use meta_loop.Models.Workspace.{WorkspaceRequest, implementation, active}
use meta_loop.Models.Runner.{RunnerSessionRequest, RunnerSessionReceipt, RunnerSessionState}
use meta_loop.Services.Intake.{IntakeRequest, start, start_new, intake_task}
use meta_loop.Services.Ports.{is_authorized, asks}
use meta_loop.Services.Transitions.{gated, transition_task, action_of}
use meta_loop.Memory.UnitOfWork.{Store, empty_store}

abbrev working_store : Store
working_store = record empty_store { tasks = ("T-1", at_design) ∷ [] }

passes : gated (some open_gate) at_design implementing implementer ≡ ok at_work
unfolding gated is_authorized asks transition is_allowed TaskStatus-discrete Role-discrete
    RiskClass-discrete String-discrete
passes = refl

gated-IsAuthorized_example :
    is_authorized (some open_gate) at_design.risk.governance_revision (action_of at_work.status)
    ≡ true
gated-IsAuthorized_example =
    gated-IsAuthorized (some open_gate) at_design at_work implementing implementer passes (inl refl)

moves :
    (transition_task
      (some open_gate)
      "T-1"
      implementing
      implementer
      (evt "E-1" (pos 1))
      (pos 3)
      (pos 0)
      (field "why" (str "x") end)
      working_store).0
    ≡ ok at_work
unfolding transition_task gated is_authorized asks transition is_allowed update_task append
    append_new history get TaskStatus-discrete Role-discrete RiskClass-discrete String-discrete
    ℤ-discrete ℕ_discrete ◌+ℤ◌ Fields-discrete
moves = refl

transition_task-stores_example :
    let s' =
      (transition_task
        (some open_gate)
        "T-1"
        implementing
        implementer
        (evt "E-1" (pos 1))
        (pos 3)
        (pos 0)
        (field "why" (str "x") end)
        working_store).1 in
    (t : Task) × (get "T-1" working_store.tasks ≡ some t)
    × (gated (some open_gate) t implementing implementer ≡ ok at_work)
    × (get at_work.task_id s'.tasks ≡ some at_work)
    × (get "E-1" s'.events.event_ids ≡ some (evt "E-1" (pos 1)))
    × (get "E-1" working_store.events.event_ids ≡ none
        → history (evt "E-1" (pos 1)).task_id s'.events
          ≡ history (evt "E-1" (pos 1)).task_id working_store.events ++ evt "E-1" (pos 1) ∷ [])
transition_task-stores_example =
    transition_task-stores (some open_gate) "T-1" implementing implementer (evt "E-1" (pos 1))
      (pos 3) (pos 0) (field "why" (str "x") end) working_store at_work moves

abbrev intake_request : IntakeRequest
intake_request = record {
  request_id = "T-1";
  source_kind = "issue";
  source_reference = "42";
  repository_name = "owner/repo";
  repository_revision = "main";
  proposed_risk = r1;
  validated_risk = r1;
  effective_risk = r1;
  governance_revision = some "rev-7";
  enqueues = true;
  priority = pos 2;
}

starts : (start intake_request 1000 "E-1" empty_store).0 ≡ ok fresh_task
unfolding start start_new intake_task new_source new_repository check_risk create new_event
    create_task create_intake append append_new history enqueue get RiskClass-discrete
    String-discrete ℤ-discrete ℕ_discrete ◌+ℤ◌
starts = refl

start_repeat_example :
    let s' = (start intake_request 1000 "E-1" empty_store).1 in
    start intake_request 2000 "E-2" s' ≡ (ok fresh_task, s')
start_repeat_example =
    start_repeat intake_request 1000 2000 "E-1" "E-2" empty_store fresh_task starts

abbrev session : RunnerSessionRequest
session = record {
  session_id = "S-1";
  task_id = "T-1";
  role = implementer;
  expected_task_version = pos 4;
  expected_sequence = pos 1;
  input_artifacts = [];
  timeout_seconds = pos 60;
  correlation_id = "T-1";
  schema_version = pos 1;
}

abbrev allocation : WorkspaceRequest
allocation = record {
  allocation_id = "W-1";
  task_id = "T-1";
  role = implementer;
  purpose = implementation;
  source_revision = "main";
  expected_task_version = pos 4;
  expected_sequence = pos 1;
  correlation_id = "T-1";
  governance_revision = some "rev-7";
  schema_version = pos 1;
}

-- a manager that gives out what is asked for
abbrev manager : Manager
manager = record {
  allocate =
      λ r p b. ok (record { request = r; read_only = b; repository_name = p.name; state = active });
  release = λ _. ok true;
}

policy_writable_iff_example : (policy (some open_gate) at_work allocation ≡ ok false) ↔ (
    (at_work.risk.effective ≢ r3)
    × (at_work.status ≡ implementing)
    × (allocation.role ≡ implementer)
    × (allocation.purpose ≡ implementation)
    × (is_authorized (some open_gate) allocation.governance_revision "workspace_implementation"
        ≡ true))
policy_writable_iff_example = policy_writable_iff (some open_gate) at_work allocation

abbrev review_session : RunnerSessionRequest
review_session = record session {
  role = design_reviewer;
  expected_task_version = pos 3;
  expected_sequence = pos 0;
}

abbrev new_receipt : RunnerSessionReceipt
new_receipt = record { session_id = "S-1"; state = RunnerSessionState.requested; created = true }

requests : (request_session review_session 10 "E-1" working_store).0 ≡ ok new_receipt
unfolding request_session request_new check_request record_session new_event append append_new
    history get RiskClass-discrete Role-discrete String-discrete ℤ-discrete ℕ_discrete ◌+ℤ◌
requests = refl

request_session-Fits_example :
    (t : Task) × (get "T-1" working_store.tasks ≡ some t)
    × Fits review_session t working_store
    × (get "S-1" (request_session review_session 10 "E-1" working_store).1.runner_sessions
        ≡ some (record {
          request = review_session;
          state = RunnerSessionState.requested;
          outcome = none;
        }))
request_session-Fits_example =
    request_session-Fits review_session 10 "E-1" working_store new_receipt requests refl
