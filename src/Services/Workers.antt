-- ===== src/Services/Workers.antt =====
-- application/artifacts.py and application/workers.py: artifacts, and the work on runner sessions.
use meta_loop.Memory.Queue.{complete}
use meta_loop.Services.Transitions.{transition_task}
use meta_loop.Memory.Events.{read, append}
use meta_loop.Memory.Ledgers.{register_artifact}
use meta_loop.Memory.Sessions.{set_outcome, record_result}
use meta_loop.Memory.Tasks.{update_task}
use meta_loop.Memory.UnitOfWork.{Store}
use meta_loop.Domain.Enums.{artifact_registered, task_transitioned, task_blocked, system, role_eq}
use meta_loop.Services.Ports.{
  Governance, on_tasks, need_task, on_sessions, is_authorized, on_artifacts, on_events, on_queue,
  on_results,
}
use meta_loop.Base.Json.{Fields, field, end, str}
use meta_loop.Domain.Event.{Event, new_event}
use meta_loop.Base.Clock.{Time}
use meta_loop.Base.Int.{ℤ, pos, ◌+ℤ◌, int_eq}
use meta_loop.Domain.Artifacts.{
  validate_logical_name, ArtifactRef, new_digest, new_ref, ref_to_dict,
}
use meta_loop.Models.Runner.{
  RunnerSessionRequest, WorkerResult, RunnerSessionOutcome, RunnerSessionRecord, check_outcome,
  RunnerSessionState, WorkerResultReceipt, worker_result_canonical, runner_state_eq,
}
use meta_loop.Domain.Task.{Task, block, task_eq, attach_artifact}
use meta_loop.Base.{
  ◌>>=◌, ◌>>◌, String, Result, Option, Bool, ℕ, err, Exec, false, ok, some, if◌then◌else◌, raise_if,
  lift, none, ◌!=◌, validation, ◌==◌, gets, get, not, task_not_found, ◌&&◌, string_eq,
  idempotency_conflict, unsupported_governance, list_eq, nat_eq, pure, ◌||◌, length,
}

pub record ArtifactRequest : Type 0 where
  pub logical_name : String
  pub media_type : String
  pub classification : String
  pub source_kind : String
  pub contains_secrets : Bool

-- `ArtifactRequest.__post_init__`
unfoldable pub check_artifact_request : ArtifactRequest → Result ArtifactRequest
check_artifact_request r = elim (validate_logical_name r.logical_name) [
  | err e ↦ err e
  | ok _ ↦ ok r
]

-- `ArtifactRef(ArtifactDigest(digest), request.logical_name, request.media_type)`
unfoldable pub reference_of : String → ArtifactRequest → Result ArtifactRef
reference_of digest r = elim (new_digest digest) [
  | err e ↦ err e
  | ok d ↦ new_ref d r.logical_name r.media_type (pos 1)
]

abbrev pub registered_event : String → ArtifactRef → ℤ → Time → String → Event
registered_event task_id reference expected_sequence now new_id = record {
  event_id = new_id;
  task_id = task_id;
  event_type = artifact_registered;
  occurred_at = now;
  actor = system;
  payload = field "artifact" (ref_to_dict reference) end;
  schema_version = pos 1;
  causation_id = none;
  correlation_id = task_id;
  sequence = expected_sequence +ℤ pos 1;
}

abbrev pub update_if_new : Task → Task → ℤ → Exec Store (Unit {0})
update_if_new updated task expected_version =
    if updated != task
    then (do on_tasks (update_task updated expected_version); pure tt)
    else pure tt

-- `ArtifactRegistrationService.register`; `stored` is the digest and the size that the blob store
-- gives back for the chunks, or what it raises
unfoldable pub register :
    Result (String × ℕ) → String → ArtifactRequest → ℤ → ℤ → Time → String → Exec Store ArtifactRef
register stored task_id r expected_version expected_sequence now new_id = do
  raise_if r.contains_secrets validation
  blob ← lift stored
  reference ← lift (reference_of blob.0 r)
  task ← need_task task_id
  on_artifacts (
      register_artifact (record {
        reference = reference;
        classification = r.classification;
        source_kind = r.source_kind;
        size_bytes = blob.1;
      }))
  update_if_new (attach_artifact task reference) task expected_version
  event ← lift (new_event (registered_event task_id reference expected_sequence now new_id))
  on_events (append event expected_sequence)
  pure reference

-- what follows `runner.run(record.request)`, which is an argument
unfoldable pub run_new : Result RunnerSessionOutcome → String → Exec Store RunnerSessionOutcome
run_new ran session_id = do
  outcome ← lift ran
  raise_if (outcome.session_id != session_id) validation
  on_sessions (set_outcome outcome)
  pure outcome

-- `WorkerOrchestrationService.run`
unfoldable pub run_session :
    (RunnerSessionRequest → Result RunnerSessionOutcome) → String → Exec Store RunnerSessionOutcome
run_session runner session_id s =
    if s.fuse.engaged then (err validation, s) else elim (get session_id s.runner_sessions) [
      | none ↦ (err task_not_found, s)
      | some r ↦ elim r.outcome [
        | some outcome ↦ (ok outcome, s)
        | none ↦ run_new (runner r.request) session_id s
      ]
    ]

-- `FakeRunner.run`
unfoldable pub fake_run : RunnerSessionRequest → Result RunnerSessionOutcome
fake_run r = check_outcome (record {
  session_id = r.session_id;
  state = RunnerSessionState.succeeded;
  summary = "accepted by fake runner";
})

-- the session of a result, succeeded and of the result's task and role
unfoldable pub fits_session : Option RunnerSessionRecord → WorkerResult → Bool
fits_session none r = false
fits_session (some s) r = elim s.outcome [
  | none ↦ false
  | some o ↦
      o.state == RunnerSessionState.succeeded
      && s.request.task_id == r.task_id
      && s.request.role == r.worker.role
]

abbrev pub result_fields : WorkerResult → ArtifactRef → Fields
result_fields r reference =
    field "artifact" (ref_to_dict reference) (field "result_id" (str r.result_id) end)

abbrev pub transitioned_event : WorkerResult → Task → ArtifactRef → Time → String → Event
transitioned_event r task reference now new_id = record {
  event_id = new_id;
  task_id = task.task_id;
  event_type = task_transitioned;
  occurred_at = now;
  actor = r.worker.role;
  payload =
      field "artifact" (ref_to_dict reference)
        (field "result_id" (str r.result_id) (field "summary" (str r.summary) end));
  schema_version = pos 1;
  causation_id = some r.session_id;
  correlation_id = r.session_id;
  sequence = r.expected_sequence +ℤ pos 2;
}

-- what the clock and the generator give to the two events of a result
pub record Stamps : Type 0 where
  pub first_id : String
  pub first_at : Time
  pub second_id : String
  pub second_at : Time

-- the part of `publish` for a new result
unfoldable pub publish_new :
    Result (String × ℕ)
    → WorkerResult
    → ArtifactRequest
    → Time
    → Stamps
    → Exec Store WorkerResultReceipt
publish_new stored r a now stamps = do
  session ← gets (λ s. get r.session_id s.runner_sessions)
  raise_if (not (fits_session session r)) validation
  task ← need_task r.task_id
  events ← on_events (read task.task_id)
  raise_if (task.version != r.expected_task_version || pos (length events) != r.expected_sequence)
      validation
  reference ←
      register stored task.task_id a r.expected_task_version r.expected_sequence stamps.first_at
        stamps.first_id
  updated ← need_task task.task_id
  event ← lift (new_event (transitioned_event r task reference stamps.second_at stamps.second_id))
  transition_task none task.task_id r.target r.worker.role event updated.version
      (r.expected_sequence +ℤ pos 1) (result_fields r reference)
  on_queue (complete task.task_id r.worker.worker_id now)
  on_results (record_result r)

-- `ResultPublicationService.publish`
unfoldable pub publish_result :
    Result (String × ℕ)
    → WorkerResult
    → ArtifactRequest
    → Time
    → Stamps
    → Exec Store WorkerResultReceipt
publish_result stored r a now stamps s = elim (get r.result_id s.worker_results) [
  | some existing ↦ (
    if worker_result_canonical existing != worker_result_canonical r
        then err idempotency_conflict
        else ok (record { result_id = r.result_id; created = false }),
    s,
  )
  | none ↦ publish_new stored r a now stamps s
]

abbrev pub cancelled_event : String → ℤ → Time → String → Event
cancelled_event task_id expected_sequence now new_id = record {
  event_id = new_id;
  task_id = task_id;
  event_type = task_blocked;
  occurred_at = now;
  actor = system;
  payload = field "reason" (str "cancel_execution") end;
  schema_version = pos 1;
  causation_id = none;
  correlation_id = task_id;
  sequence = expected_sequence +ℤ pos 1;
}

-- `ResultPublicationService.cancel`; `at` is the event's time
unfoldable pub cancel :
    String
    → String
    → Time
    → Option Governance
    → Option String
    → ℤ
    → Time
    → String
    → Exec Store (Unit {0})
cancel task_id worker_id now governance revision expected_sequence at new_id = do
  raise_if (not (is_authorized governance revision "cancel_execution")) unsupported_governance
  task ← need_task task_id
  dead ← lift (block task)
  on_tasks (update_task dead task.version)
  event ← lift (new_event (cancelled_event task_id expected_sequence at new_id))
  on_events (append event expected_sequence)
  on_queue (complete task_id worker_id now)
  pure tt
