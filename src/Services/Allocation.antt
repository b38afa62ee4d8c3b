-- ===== src/Services/Allocation.antt =====
-- application/workspaces.py: the allocation and release of workspaces.
pub mod Policy
use meta_loop.Memory.Workspaces.{record_workspace, release_workspace, Workspaces}
use meta_loop.Base.Int.{pos, ◌+ℤ◌, int_eq, ℤ}
use meta_loop.Memory.Events.{append, read}
use meta_loop.Base.Json.{field, str, end}
use meta_loop.Memory.UnitOfWork.{Store}
use meta_loop.Domain.Enums.{
  r3, workspace_allocated, implementer, system, role_value, implementing, planner, design_reviewer,
  patch_reviewer, risk_eq, role_eq, workspace_released, status_eq,
}
use meta_loop.Domain.Event.{Event, new_event}
use meta_loop.Base.Clock.{Time}
use meta_loop.Domain.Task.{RepositoryTarget, Task}
use meta_loop.Services.Ports.{
  Governance, check_fuse, on_events, need_task, on_workspaces, is_authorized,
}
use meta_loop.Models.Workspace.{
  WorkspaceRequest, WorkspaceRecord, WorkspaceReceipt, proposal, purpose_value,
  workspace_request_canonical, workspace_id, implementation, planning, review, released, purpose_eq,
  workspace_state_eq, active,
}
use meta_loop.Base.{
  ◌>>=◌, ◌>>◌, Option, Bool, Result, if◌then◌else◌, String, ◌==◌, Exec, lift, ◌||◌, get, ◌!=◌, some,
  err, pure, raise_if, validation, idempotency_conflict, ok, length, true, none,
  optimistic_conflict, false, string_eq, list_eq, nat_eq, unsupported_governance, ◌&&◌, put,
}

-- `_validate_policy`, up to the call of governance: whether the workspace is read-only
unfoldable pub policy : Option Governance → Task → WorkspaceRequest → Result Bool
policy g t r =
    if t.risk.effective == r3
    then (if r.role == implementer || r.purpose != proposal then err validation else ok true)
    else if r.role == implementer
    then (if r.purpose != implementation || t.status != implementing
        then err validation
        else if is_authorized g r.governance_revision "workspace_implementation"
        then ok false
        else err unsupported_governance)
    else if r.role == planner && r.purpose == planning
    then ok true
    else if (r.role == design_reviewer || r.role == patch_reviewer) && r.purpose == review
    then ok true
    else err validation

-- `WorkspaceManager`: what it gives or raises, as a function of the call's arguments
pub record Manager : Type 0 where
  pub allocate : WorkspaceRequest → RepositoryTarget → Bool → Result WorkspaceRecord
  pub release : WorkspaceRecord → Result Bool

abbrev pub allocated_event : WorkspaceRequest → Task → WorkspaceRecord → Time → String → Event
allocated_event r t stored now new_id = record {
  event_id = new_id;
  task_id = t.task_id;
  event_type = workspace_allocated;
  occurred_at = now;
  actor = system;
  payload = field "purpose" (str (purpose_value r.purpose)) (
      field "role" (str (role_value r.role)) (
        field "source_revision" (str r.source_revision)
          (field "workspace_id" (str (workspace_id stored)) end)));
  schema_version = pos 1;
  causation_id = none;
  correlation_id = r.correlation_id;
  sequence = r.expected_sequence +ℤ pos 1;
}

abbrev append_allocated :
    Bool → WorkspaceRequest → Task → WorkspaceRecord → Time → String → Exec Store (Unit {0})
append_allocated created r t stored now new_id =
    if created
    then (do
      event ← lift (new_event (allocated_event r t stored now new_id))
      on_events (append event r.expected_sequence)
      pure tt)
    else pure tt

-- the part of `allocate` for a new request; the manager's own state is not the stores'
unfoldable pub allocate_new :
    Manager → Option Governance → WorkspaceRequest → Time → String → Exec Store WorkspaceReceipt
allocate_new m g r now new_id = do
  check_fuse
  task ← need_task r.task_id
  events ← on_events (read task.task_id)
  raise_if (task.version != r.expected_task_version || pos (length events) != r.expected_sequence)
      optimistic_conflict
  read_only ← lift (policy g task r)
  workspace ← lift (m.allocate r task.repository read_only)
  stored ← on_workspaces (record_workspace workspace)
  append_allocated stored.1 r task stored.0 now new_id
  pure
      (record { allocation_id = workspace_id stored.0; state = stored.0.state; created = stored.1 })

-- `WorkspaceAllocationService.allocate`
unfoldable pub allocate_workspace :
    Manager → Option Governance → WorkspaceRequest → Time → String → Exec Store WorkspaceReceipt
allocate_workspace m g r now new_id s = elim (get r.allocation_id s.workspaces) [
  | some existing ↦ (
    if workspace_request_canonical existing.request != workspace_request_canonical r
        then err idempotency_conflict
        else ok (record {
          allocation_id = workspace_id existing;
          state = existing.state;
          created = false;
        }),
    s,
  )
  | none ↦ allocate_new m g r now new_id s
]

abbrev released_event : WorkspaceRecord → ℤ → Time → String → Event
released_event w sequence now new_id = record {
  event_id = new_id;
  task_id = w.request.task_id;
  event_type = workspace_released;
  occurred_at = now;
  actor = system;
  payload = field "workspace_id" (str (workspace_id w)) end;
  schema_version = pos 1;
  causation_id = none;
  correlation_id = w.request.correlation_id;
  sequence = sequence +ℤ pos 1;
}

-- what follows a release by the manager
unfoldable pub release_stored : String → Time → String → Exec Store Bool
release_stored allocation_id now new_id = do
  released_one ← on_workspaces (release_workspace allocation_id)
  events ← on_events (read released_one.request.task_id)
  event ← lift (new_event (released_event released_one (pos (length events)) now new_id))
  on_events (append event (pos (length events)))
  pure true

-- `WorkspaceAllocationService.release`
unfoldable pub release_allocation : Manager → String → Time → String → Exec Store Bool
release_allocation m allocation_id now new_id s = elim (get allocation_id s.workspaces) [
  | none ↦ (ok false, s)
  | some w ↦ if w.state == released then (ok false, s) else elim (m.release w) [
    | err e ↦ (err e, s)
    | ok false ↦ (ok false, s)
    | ok true ↦ release_stored allocation_id now new_id s
  ]
]

-- `FakeWorkspaceManager`: its dictionary of records
unfoldable pub fake_allocate :
    WorkspaceRequest → RepositoryTarget → Bool → Exec Workspaces WorkspaceRecord
fake_allocate r repository read_only s = elim (get r.allocation_id s) [
  | some current ↦ (
    if workspace_request_canonical current.request != workspace_request_canonical r
        then err idempotency_conflict
        else ok current,
    s,
  )
  | none ↦
      let w : WorkspaceRecord = record {
        request = r;
        read_only = read_only;
        repository_name = repository.name;
        state = active;
      } in
      (ok w, put (workspace_id w) w s)
]

unfoldable pub fake_release : WorkspaceRecord → Exec Workspaces Bool
fake_release w s = elim (get (workspace_id w) s) [
  | none ↦ (ok false, s)
  | some current ↦
      if current.state == released
      then (ok false, s)
      else (ok true, put (workspace_id w) (record current { state = released }) s)
]
