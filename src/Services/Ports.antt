-- ===== src/Services/Ports.antt =====
-- application/ports.py: what the services call. The stores are those of infrastructure/memory.py; the
-- clock's and the generator's values, and the governance reader, are arguments of the services.
use meta_loop.Domain.Task.{Task}
use meta_loop.Memory.UnitOfWork.{Store}
use meta_loop.Memory.Workspaces.{Workspaces}
use meta_loop.Memory.Sessions.{Sessions, Results}
use meta_loop.Memory.Ledgers.{Intakes, Catalog}
use meta_loop.Models.Queue.{FuseState, ControlEvent}
use meta_loop.Memory.Queue.{Queue}
use meta_loop.Memory.Events.{Events}
use meta_loop.Memory.Tasks.{Tasks}
use meta_loop.Base.{
  String, Exec, Option, Result, List, Bool, zoom, if◌then◌else◌, err, false, validation, or_raise,
  ok, some, get, not, task_not_found, is_empty, string_eq, ◌&&◌, none,
}

-- `GovernanceReader`: either call may raise
pub record Governance : Type 0 where
  pub read_revision : String → Result (Unit {0})
  pub authorize : String → String → Result Bool

abbrev pub on_tasks : {A : Type 0} → Exec Tasks A → Exec Store A
on_tasks = zoom (λ s. s.tasks) (λ t s. record s { tasks = t })

abbrev pub on_events : {A : Type 0} → Exec Events A → Exec Store A
on_events = zoom (λ s. s.events) (λ t s. record s { events = t })

abbrev pub on_queue : {A : Type 0} → Exec Queue A → Exec Store A
on_queue = zoom (λ s. s.queue) (λ t s. record s { queue = t })

abbrev pub on_fuse : {A : Type 0} → Exec FuseState A → Exec Store A
on_fuse = zoom (λ s. s.fuse) (λ t s. record s { fuse = t })

abbrev pub on_intakes : {A : Type 0} → Exec Intakes A → Exec Store A
on_intakes = zoom (λ s. s.intakes) (λ t s. record s { intakes = t })

abbrev pub on_controls : {A : Type 0} → Exec (List ControlEvent) A → Exec Store A
on_controls = zoom (λ s. s.control_events) (λ t s. record s { control_events = t })

abbrev pub on_artifacts : {A : Type 0} → Exec Catalog A → Exec Store A
on_artifacts = zoom (λ s. s.artifacts) (λ t s. record s { artifacts = t })

abbrev pub on_sessions : {A : Type 0} → Exec Sessions A → Exec Store A
on_sessions = zoom (λ s. s.runner_sessions) (λ t s. record s { runner_sessions = t })

abbrev pub on_results : {A : Type 0} → Exec Results A → Exec Store A
on_results = zoom (λ s. s.worker_results) (λ t s. record s { worker_results = t })

abbrev pub on_workspaces : {A : Type 0} → Exec Workspaces A → Exec Store A
on_workspaces = zoom (λ s. s.workspaces) (λ t s. record s { workspaces = t })

-- `if uow.fuse.get().engaged: raise ValidationError(...)`
abbrev pub check_fuse : Exec Store (Unit {0})
check_fuse s = (if s.fuse.engaged then err validation else ok tt, s)

-- `uow.tasks.get(task_id)`, and `TaskNotFoundError` without a task
abbrev pub need_task : String → Exec Store Task
need_task task_id s = or_raise (get task_id s.tasks) task_not_found s

-- the two governance calls of `action`: `true` only if neither raises and the second says so
unfoldable pub asks : Governance → String → String → Bool
asks g revision action = elim (g.read_revision revision) [
  | err _ ↦ false
  | ok _ ↦ elim (g.authorize revision action) [ err _ ↦ false | ok b ↦ b ]
]

unfoldable pub is_authorized : Option Governance → Option String → String → Bool
is_authorized none revision action = false
is_authorized (some g) none action = false
is_authorized (some g) (some revision) action = not (is_empty revision) && asks g revision action
