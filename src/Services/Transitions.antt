-- ===== src/Services/Transitions.antt =====
-- application/services.py: transitions with their events, and the end of queued work.
pub mod Stored
use meta_loop.Memory.Tasks.{update_task}
use meta_loop.Memory.Events.{append}
use meta_loop.Memory.Queue.{recover_expired}
use meta_loop.Base.Json.{Fields, end}
use meta_loop.Base.Int.{ℤ}
use meta_loop.Memory.UnitOfWork.{Store}
use meta_loop.Domain.Event.{Event}
use meta_loop.Services.Ports.{Governance, is_authorized, need_task, on_queue, on_events, on_tasks}
use meta_loop.Base.Clock.{Time}
use meta_loop.Models.Queue.{QueueFailureResult}
use meta_loop.Domain.Task.{Task, transition, block}
use meta_loop.Base.{
  Option, String, Dict, List, if◌then◌else◌, Exec, ◌==◌, Result, pure, ◌||◌, ◌∷◌, lift, [],
  raise_if, or_raise, get, validation, key_error, string_eq,
}
use meta_loop.Domain.Enums.{TaskStatus, Role, implementing, status_eq, ready_to_publish, system}
use meta_loop.Base.{◌>>=◌, ◌>>◌}
use meta_loop.Domain.Task
use meta_loop.Memory.Queue
use meta_loop.Base.Json.{fields_eq}

-- the action that governance is asked for
abbrev pub action_of : TaskStatus → String
action_of target = if target == implementing then "implement" else "publish"

-- the task of the transition: blocked where governance does not let it through
unfoldable pub gated : Option Governance → Task → TaskStatus → Role → Result Task
gated g t target actor =
    if target == implementing || target == ready_to_publish
    then (if is_authorized g t.risk.governance_revision (action_of target)
        then transition t target actor
        else block t)
    else transition t target actor

-- `TaskEventService.transition`
unfoldable pub transition_task :
    Option Governance → String → TaskStatus → Role → Event → ℤ → ℤ → Fields → Exec Store Task
transition_task g task_id target actor event expected_version expected_sequence evidence = do
  task ← need_task task_id
  raise_if (evidence == end) validation
  moved ← lift (gated g task target actor)
  on_tasks (update_task moved expected_version)
  on_events (append event expected_sequence)
  pure moved

-- the last attempt fails the task too
unfoldable pub fail_task : Task → Exec Store (Unit {0})
fail_task task = do
  dead ← lift (Task.fail task system)
  on_tasks (update_task dead task.version)
  pure tt

-- `TaskQueueService.fail`
unfoldable pub fail_work : String → String → Time → Event → ℤ → Exec Store QueueFailureResult
fail_work task_id worker_id now event expected_sequence = do
  task ← need_task task_id
  result ← on_queue (Queue.fail task_id worker_id now)
  if result.terminal then fail_task task else pure tt
  on_events (append event expected_sequence)
  pure result

-- `terminal_events[task_id]`, in a mapping that the caller gives
abbrev TerminalEvents : Type 0
TerminalEvents = Dict String (Event × ℤ)

end_one : TerminalEvents → QueueFailureResult → Exec Store (Unit {0})
end_one events result = do
  task ← need_task result.task_id
  known ← or_raise (get result.task_id events) key_error
  fail_task task
  on_events (append known.0 known.1)
  pure tt

unfoldable pub end_all : TerminalEvents → List QueueFailureResult → Exec Store (Unit {0})
unfolding end_one
end_all events [] = pure tt
end_all events (r ∷ rs) = do if r.terminal then end_one events r else pure tt; end_all events rs

-- `TaskQueueService.recover_expired`
unfoldable pub recover_work : Time → TerminalEvents → Exec Store (List QueueFailureResult)
recover_work now events = do
  results ← on_queue (recover_expired now)
  end_all events results
  pure results
