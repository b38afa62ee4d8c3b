-- ===== src/Services/Intake.antt =====
-- application/controller.py: intake, queries, queue control and the fuse.
pub mod Repeat
use meta_loop.Memory.Tasks.{create_task}
use meta_loop.Memory.Ledgers.{set_fuse, create_intake, append_control}
use meta_loop.Memory.Events.{read, append}
use meta_loop.Memory.Queue.{enqueue, claim}
use meta_loop.Services.Ports.{
  Governance, need_task, on_queue, on_events, on_fuse, on_tasks, is_authorized, on_intakes,
  on_controls,
}
use meta_loop.Memory.UnitOfWork.{Store}
use meta_loop.Base.Json.{dumps, obj, field, num, str, end, str_or_null, bool}
use meta_loop.Base.Int.{ℤ, pos}
use meta_loop.Domain.Event.{Event, new_event}
use meta_loop.Domain.Enums.{
  RiskClass, task_received, system, risk_value, TaskStatus, status_eq, risk_eq,
}
use meta_loop.Models.Queue.{IntakeRecord, ControlEvent, Lease, FuseState}
use meta_loop.Domain.Task.{Task, new_source, new_repository, check_risk, create}
use meta_loop.Base.Clock.{Time}
use meta_loop.Base.{
  ◌>>=◌, ◌>>◌, String, List, Bool, ℕ, Result, Exec, Option, err, pure, lift, if◌then◌else◌, ok,
  ◌!=◌, is_empty, validation, not, create_conflict, ◌||◌, list_eq, nat_eq, false, get, true,
  unsupported_governance, none, some, string_eq, ◌==◌, ltb, ◌∷◌, ◌&&◌, [], keep, str_lt, values,
}

pub record IntakeRequest : Type 0 where
  pub request_id : String
  pub source_kind : String
  pub source_reference : String
  pub repository_name : String
  pub repository_revision : String
  pub proposed_risk : RiskClass
  pub validated_risk : RiskClass
  pub effective_risk : RiskClass
  pub governance_revision : Option String
  pub enqueues : Bool
  pub priority : ℤ

-- `IntakeRequest.canonical`
unfoldable pub intake_canonical : IntakeRequest → List ℕ
intake_canonical r = dumps (
    obj (
      field "schema_version" (num (pos 1)) (
        field "request_id" (str r.request_id) (
          field "source"
            (obj
              (field "kind" (str r.source_kind) (field "reference" (str r.source_reference) end)))
            (field "repository"
              (obj (
                field "name" (str r.repository_name)
                  (field "revision" (str r.repository_revision) end)))
              (field "risk"
                (obj (
                  field "proposed" (str (risk_value r.proposed_risk)) (
                    field "validated" (str (risk_value r.validated_risk)) (
                      field "effective" (str (risk_value r.effective_risk))
                        (field "governance_revision" (str_or_null r.governance_revision) end)))))
                (field "enqueue" (bool r.enqueues) (field "priority" (num r.priority) end))))))))

-- `Task.create(...)` with the arguments that it is called with
unfoldable pub intake_task : IntakeRequest → Time → Result Task
intake_task r now = elim (new_source r.source_kind r.source_reference) [
  | err e ↦ err e
  | ok source ↦ elim (new_repository r.repository_name r.repository_revision) [
    | err e ↦ err e
    | ok repository ↦
        elim (check_risk (record {
          proposed = r.proposed_risk;
          validated = r.validated_risk;
          effective = r.effective_risk;
          escalation_reason = none;
          governance_revision = r.governance_revision;
        })) [ err e ↦ err e | ok risk ↦ create r.request_id source repository risk now ]
  ]
]

abbrev pub received_event : IntakeRequest → Task → Time → String → Event
received_event r task now new_id = record {
  event_id = new_id;
  task_id = task.task_id;
  event_type = task_received;
  occurred_at = now;
  actor = system;
  payload = field "request_id" (str r.request_id) end;
  schema_version = pos 1;
  causation_id = none;
  correlation_id = r.request_id;
  sequence = pos 1;
}

abbrev pub enqueue_if : Bool → Task → IntakeRequest → Time → Exec Store (Unit {0})
enqueue_if false task r now = pure tt
enqueue_if true task r now = do on_queue (enqueue task.task_id r.priority now r.request_id); pure tt

-- the part of `start` for a new request
unfoldable pub start_new : IntakeRequest → Time → String → Exec Store Task
start_new r now new_id = do
  task ← lift (intake_task r now)
  event ← lift (new_event (received_event r task now new_id))
  on_tasks (create_task task)
  on_intakes (
      create_intake (record {
        request_id = r.request_id;
        canonical_request = intake_canonical r;
        task_id = task.task_id;
      }))
  on_events (append event (pos 0))
  enqueue_if r.enqueues task r now
  pure task

-- the part for a request that the ledger has
unfoldable pub start_again : IntakeRequest → IntakeRecord → Exec Store Task
start_again r known s =
    if known.canonical_request != intake_canonical r
    then (err create_conflict, s)
    else need_task known.task_id s

-- `TaskIntakeService.start`
unfoldable pub start : IntakeRequest → Time → String → Exec Store Task
start r now new_id s =
    if is_empty r.request_id || s.fuse.engaged
    then (err validation, s)
    else elim (get r.request_id s.intakes) [
      | none ↦ start_new r now new_id s
      | some known ↦ start_again r known s
    ]

-- `TaskQueryService.status`
unfoldable pub status : String → Exec Store (Task × List Event)
status task_id = do task ← need_task task_id; events ← on_events (read task_id); pure (task, events)

-- `QueueControlService.claim`
unfoldable pub claim_task : String → Time → Time → Exec Store (Option Lease)
claim_task worker_id now lease s =
    if s.fuse.engaged then (err validation, s) else on_queue (claim worker_id now lease) s

abbrev control : String → Time → Option String → ControlEvent
control action now revision = record {
  action = action;
  occurred_at = now;
  governance_revision = revision;
}

-- `FuseService.engage`
unfoldable pub engage : Time → Exec Store FuseState
engage now = do
  state ←
      on_fuse (set_fuse (record { engaged = true; changed_at = now; governance_revision = none }))
  on_controls (append_control (control "fuse_engaged" now none))
  pure state

-- `FuseService.release`: what governance raises becomes the same error
unfoldable pub release : Time → Option Governance → Option String → Exec Store FuseState
release now governance revision s =
    if not (is_authorized governance revision "fuse_release")
    then (err unsupported_governance, s)
    else (do
      state ←
          on_fuse (
            set_fuse (record { engaged = false; changed_at = now; governance_revision = revision }))
      on_controls (append_control (control "fuse_released" now revision))
      pure state)
        s

-- `x is None or value is x`
abbrev matches_status : Option TaskStatus → Task → Bool
matches_status none t = true
matches_status (some s) t = t.status == s

abbrev matches_risk : Option RiskClass → Task → Bool
matches_risk none t = true
matches_risk (some r) t = t.risk.effective == r

-- `a` before `b` by the key `(created_at, task_id)`
abbrev pub is_earlier : Task → Task → Bool
is_earlier a b =
    ltb a.created_at b.created_at || (a.created_at == b.created_at && str_lt a.task_id b.task_id)

insert_task : Task → List Task → List Task
insert_task t [] = t ∷ []
insert_task t (u ∷ us) = if is_earlier u t then u ∷ insert_task t us else t ∷ u ∷ us

sorted_tasks : List Task → List Task
unfolding insert_task
sorted_tasks [] = []
sorted_tasks (t ∷ ts) = insert_task t (sorted_tasks ts)

-- `TaskQueryService.tasks`
unfoldable pub tasks_query : Option TaskStatus → Option RiskClass → Exec Store (List Task)
unfolding sorted_tasks
tasks_query status risk s = (
  ok (sorted_tasks (keep (λ t. matches_status status t && matches_risk risk t) (values s.tasks))),
  s,
)
