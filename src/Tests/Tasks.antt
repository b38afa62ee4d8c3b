-- ===== src/Tests/Tasks.antt =====
-- Tests of tasks, their store and their events.
use meta_loop.Domain.Event.{event_eq}
use meta_loop.Domain.Task.Transition.{Verdict, transition_iff}
use meta_loop.Base.Int.{pos, ◌+ℤ◌, ℤ-discrete}
use meta_loop.Domain.Enums.{
  TaskStatus-discrete, implementing, validated, Role-discrete, RiskClass-discrete, implementer,
  rework_required, patch_reviewer, Role, validator, blocked,
}
use meta_loop.Tests.Data.{at_design, fresh_task, at_work, evt, dead}
use meta_loop.Memory.Events.Invariant.{IsConsistent, append-IsConsistent, append_again}
use meta_loop.Memory.Events.{Events, append, append_new, history}
use meta_loop.Memory.Tasks.{Tasks, update_task, update_task_twice}
use meta_loop.Base.{
  ◌≡◌, get, [], ok, ◌∷◌, String-discrete, refl, ◌⊎◌, ◌↔◌, if◌then◌else◌, ℕ_discrete, err, ◌==◌,
  string_eq, false, idempotency_conflict, inl, inr, some, optimistic_conflict,
}
use meta_loop.Domain.Task.Lifecycle.{
  apply, IsGoverned, Reach-IsGoverned, transition_op, next, request_rework_op, here, terminal_kept,
  rework_revives,
}
use meta_loop.Domain.Task.{transition, create, Task, is_allowed, moved, request_rework, is_terminal}

enters_work : transition at_design implementing implementer ≡ ok at_work
unfolding transition is_allowed TaskStatus-discrete Role-discrete RiskClass-discrete String-discrete
enters_work = refl

transition_iff_example : (transition at_design implementing implementer ≡ ok at_work) ↔ (
    Verdict at_design implementing implementer implementing
    × (at_work ≡ moved at_design implementing))
transition_iff_example = transition_iff at_design at_work implementing implementer

created : create "T-1" fresh_task.source fresh_task.repository fresh_task.risk 1000 ≡ ok fresh_task
unfolding create String-discrete
created = refl

validates : apply (transition_op validated validator) fresh_task ≡ ok (moved fresh_task validated)
unfolding apply transition is_allowed TaskStatus-discrete Role-discrete RiskClass-discrete
    String-discrete
validates = refl

Reach-IsGoverned_example : IsGoverned (moved fresh_task validated)
Reach-IsGoverned_example =
    Reach-IsGoverned "T-1" fresh_task.source fresh_task.repository fresh_task.risk 1000 created
      (next here (transition_op validated validator) validates)

revived : Task
revived = record dead { status = rework_required; rework_round = pos 1; version = pos 4 }

asks_again : apply (request_rework_op patch_reviewer) dead ≡ ok revived
unfolding revived apply request_rework Role-discrete ◌+ℤ◌
asks_again = refl

terminal_kept_example :
    (revived.status ≡ dead.status)
    ⊎ ((actor : Role) × (request_rework_op patch_reviewer ≡ request_rework_op actor))
terminal_kept_example =
    terminal_kept (request_rework_op patch_reviewer) dead revived (inl refl) asks_again

rework_revives_example :
    (u : Task) × (request_rework dead patch_reviewer ≡ ok u) × (is_terminal u.status ≡ false)
rework_revives_example = rework_revives dead patch_reviewer (inl refl) (inr refl)

abbrev one_task : Tasks
one_task = ("T-1", at_design) ∷ []

updates : (update_task at_work (pos 3) one_task).0 ≡ ok at_work
unfolding update_task get String-discrete ℤ-discrete ◌+ℤ◌ ℕ_discrete
updates = refl

abbrev no_events : Events
no_events = record { histories = []; event_ids = [] }

append-IsConsistent_example : IsConsistent (append (evt "E-1" (pos 1)) (pos 0) no_events).1
append-IsConsistent_example =
    append-IsConsistent (evt "E-1" (pos 1)) (pos 0) no_events
      (record { numbered = tt; indexed = tt })

appends : (append (evt "E-1" (pos 1)) (pos 0) no_events).0 ≡ ok (evt "E-1" (pos 1))
unfolding append append_new history get ℤ-discrete ◌+ℤ◌ ℕ_discrete
appends = refl

append_again_example :
    let s' = (append (evt "E-1" (pos 1)) (pos 0) no_events).1 in
    append (evt "E-1" (pos 2)) (pos 1) s' ≡ (
      if evt "E-1" (pos 1) == evt "E-1" (pos 2)
          then ok (evt "E-1" (pos 1))
          else err idempotency_conflict,
      s',
    )
append_again_example =
    append_again (evt "E-1" (pos 1)) (evt "E-1" (pos 2)) (pos 0) (pos 1) no_events appends refl

abbrev stored_tasks : Tasks
stored_tasks = ("T-1", at_design) ∷ []

updates_once : (update_task at_work (pos 3) stored_tasks).0 ≡ ok at_work
unfolding update_task get String-discrete ℤ-discrete ◌+ℤ◌ ℕ_discrete
updates_once = refl

update_task_twice_example :
    let s' = (update_task at_work (pos 3) stored_tasks).1 in
    (get "T-1" s' ≡ some at_work)
    × (update_task (record at_design { status = blocked; version = pos 4 }) (pos 3) s'
        ≡ (err optimistic_conflict, s'))
update_task_twice_example =
    update_task_twice at_work (record at_design { status = blocked; version = pos 4 }) (pos 3)
      stored_tasks refl updates_once
