-- ===== src/Services/Sessions.antt =====
-- application/runners.py: runner session requests.
pub mod Checked
use meta_loop.Base.Int.{pos, ◌+ℤ◌, int_eq}
use meta_loop.Memory.Events.{append, history}
use meta_loop.Memory.Sessions.{record_session}
use meta_loop.Services.Ports.{on_sessions, on_events}
use meta_loop.Base.Json.{field, arr, str, end}
use meta_loop.Domain.Artifacts.{artifact_ref_eq}
use meta_loop.Domain.Enums.{
  runner_session_requested, system, r3, implementer, role_value, risk_eq, role_eq,
}
use meta_loop.Domain.Event.{Event, new_event}
use meta_loop.Memory.UnitOfWork.{Store}
use meta_loop.Base.Clock.{Time}
use meta_loop.Domain.Task.{Task}
use meta_loop.Models.Runner.{
  RunnerSessionRequest, RunnerSessionReceipt, refs_to_items, session_request_canonical,
}
use meta_loop.Base.{
  ◌>>=◌, ◌>>◌, Bool, String, any, Result, Exec, not, guard, if◌then◌else◌, gets, get, elem,
  validation, lift, none, ◌==◌, err, task_not_found, ◌&&◌, pure, some, ◌!=◌, optimistic_conflict,
  idempotency_conflict, ok, length, false, string_eq, list_eq, nat_eq,
}

-- `any(reference not in task.artifacts for reference in request.input_artifacts)`
abbrev pub has_foreign : RunnerSessionRequest → Task → Bool
has_foreign r t = any (λ a. not (elem a t.artifacts)) r.input_artifacts

-- the tests of a new request, in the source's order
unfoldable pub check_request : RunnerSessionRequest → Task → Store → Result (Unit {0})
check_request r t s = guard s.fuse.engaged validation (
    guard (t.risk.effective == r3 && r.role == implementer) validation (
      guard (t.version != r.expected_task_version) optimistic_conflict (
        guard (pos (length (history t.task_id s.events)) != r.expected_sequence) optimistic_conflict
          (guard (has_foreign r t) validation (ok tt)))))

abbrev pub requested_event : RunnerSessionRequest → Task → Time → String → Event
requested_event r t now new_id = record {
  event_id = new_id;
  task_id = t.task_id;
  event_type = runner_session_requested;
  occurred_at = now;
  actor = system;
  payload =
      field "input_artifacts" (arr (refs_to_items r.input_artifacts))
        (field "role" (str (role_value r.role)) (field "session_id" (str r.session_id) end));
  schema_version = pos 1;
  causation_id = none;
  correlation_id = r.correlation_id;
  sequence = r.expected_sequence +ℤ pos 1;
}

abbrev append_requested :
    RunnerSessionReceipt → RunnerSessionRequest → Task → Time → String → Exec Store (Unit {0})
append_requested receipt r t now new_id =
    if receipt.created
    then (do
      event ← lift (new_event (requested_event r t now new_id))
      on_events (append event r.expected_sequence)
      pure tt)
    else pure tt

unfoldable pub request_new :
    RunnerSessionRequest → Task → Time → String → Exec Store RunnerSessionReceipt
request_new r t now new_id = do
  s ← gets (λ s. s)
  lift (check_request r t s)
  receipt ← on_sessions (record_session r)
  append_requested receipt r t now new_id
  pure receipt

-- `RunnerSessionService.request`
unfoldable pub request_session :
    RunnerSessionRequest → Time → String → Exec Store RunnerSessionReceipt
request_session r now new_id s = elim (get r.task_id s.tasks) [
  | none ↦ (err task_not_found, s)
  | some t ↦ elim (get r.session_id s.runner_sessions) [
    | some existing ↦ (
      if session_request_canonical existing.request != session_request_canonical r
          then err idempotency_conflict
          else ok (record { session_id = r.session_id; state = existing.state; created = false }),
      s,
    )
    | none ↦ request_new r t now new_id s
  ]
]
