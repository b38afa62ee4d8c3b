-- ===== src/Services/Transitions/Stored.antt =====
-- application/services.py: what a transition leaves in the stores.
use meta_loop.Memory.UnitOfWork.{Store}
use meta_loop.Base.Json.{fields_eq}
use meta_loop.Base.Json.{Fields, end}
use meta_loop.Domain.Event.{Event}
use meta_loop.Base.Int.{ℤ}
use meta_loop.Memory.Tasks.{update_task, Tasks}
use meta_loop.Memory.Events.{append, append_new, Events, history, set_default}
use meta_loop.Domain.Task.Transition.{NeedsRevision, transition_iff}
use meta_loop.Services.Ports.{Governance, is_authorized}
use meta_loop.Domain.Enums.{TaskStatus, Role, blocked, implementing, ready_to_publish, status_eq}
use meta_loop.Services.Transitions.{gated, action_of, transition_task}
use meta_loop.Domain.Task.{Task, block, transition}
use meta_loop.Base.{
  Option, ◌≡◌, ok, true, ◌⊎◌, Bool-cases, inr, inl, ◌==◌, ◌||◌, arith, String, get, some,
  get-put_self, string_eq, Option-cases, Result-cases, none, ◌++◌, ◌∷◌, [],
}

transition-status :
    (t u : Task) (target : TaskStatus) (actor : Role)
    → transition t target actor ≡ ok u
    → (u.status ≡ target) ⊎ (u.status ≡ blocked)
transition-status t u target actor e = elim ((transition_iff t u target actor).0 e).0 [
  | inl (_, _, _, s) ↦ inl s
  | inr v ↦ elim v [
    | inl (_, _, _, s) ↦ inr s
    | inr w ↦ elim w [ inl (_, _, _, s) ↦ inr s | inr (_, _, _, _, s) ↦ inl s ]
  ]
]

-- A task comes to implementation or to publication only where governance has authorised this action
-- on the revision of the task's own risk assessment.
pub gated-IsAuthorized :
    (g : Option Governance) (t u : Task) (target : TaskStatus) (actor : Role)
    → gated g t target actor ≡ ok u
    → NeedsRevision u.status
    → is_authorized g t.risk.governance_revision (action_of u.status) ≡ true
unfolding gated block
gated-IsAuthorized g t u target actor h n =
    elim (Bool-cases (is_authorized g t.risk.governance_revision (action_of target))) [
      | inr a ↦ elim (Bool-cases (target == implementing || target == ready_to_publish)) [
        | inl b ↦ ground (arith, h, n, a, b)
        | inr b ↦ ground (arith, transition-status t u target actor, h, n, b)
      ]
      | inl a ↦ ground (arith, transition-status t u target actor, h, n, a)
    ]

append_ok :
    (e x : Event) (n : ℤ) (s : Events)
    → (append e n s).0 ≡ ok x
    → get e.event_id (append e n s).1.event_ids ≡ some e
unfolding append append_new
append_ok e x n s h = ground (arith, h, get-put_self e.event_id e s.event_ids)

-- an event of a new id is put at the end of its task's history
append-history :
    (e x : Event) (n : ℤ) (s : Events)
    → (append e n s).0 ≡ ok x
    → get e.event_id s.event_ids ≡ none
    → history e.task_id (append e n s).1 ≡ history e.task_id s ++ e ∷ []
unfolding append append_new history
append-history e x n s h a = ground (
  arith,
  h,
  a,
  get-put_self e.task_id (history e.task_id s ++ e ∷ []) (set_default e.task_id s.histories),
)

update_ok :
    (t x : Task) (n : ℤ) (s : Tasks)
    → (update_task t n s).0 ≡ ok x
    → get t.task_id (update_task t n s).1 ≡ some t
unfolding update_task
update_ok t x n s h = ground (arith, h, get-put_self t.task_id t s)

-- A transition that returns has stored both of its parts: the task that governance and the policy
-- gave for the task found, and the event, which stands under its id and, where the id was new, at the
-- end of its task's history.
pub transition_task-stores :
    (g : Option Governance) (task_id : String) (target : TaskStatus) (actor : Role) (e : Event)
    (version sequence : ℤ) (evidence : Fields) (s : Store) (u : Task)
    → (transition_task g task_id target actor e version sequence evidence s).0 ≡ ok u
    → let s' = (transition_task g task_id target actor e version sequence evidence s).1 in
      (t : Task) × (get task_id s.tasks ≡ some t)
      × (gated g t target actor ≡ ok u)
      × (get u.task_id s'.tasks ≡ some u)
      × (get e.event_id s'.events.event_ids ≡ some e)
      × (get e.event_id s.events.event_ids ≡ none
          → history e.task_id s'.events ≡ history e.task_id s.events ++ e ∷ [])
unfolding transition_task
transition_task-stores g task_id target actor e version sequence evidence s u h =
    elim (Option-cases (get task_id s.tasks)) [
      | inl a ↦ ground (arith, a, h)
      | inr (t, a) ↦ elim (Bool-cases (evidence == end)) [
        | inl b ↦ ground (arith, a, b, h)
        | inr b ↦ elim (Result-cases (gated g t target actor)) [
          | inr (x, c) ↦ ground (arith, a, b, c, h)
          | inl (m, c) ↦ elim (Result-cases (update_task m version s.tasks).0) [
            | inr (x, d) ↦ ground (arith, a, b, c, d, h)
            | inl (n, d) ↦ elim (Result-cases (append e sequence s.events).0) [
              | inr (x, f) ↦ ground (arith, a, b, c, d, f, h)
              | inl (y, f) ↦ (
                t,
                a,
                ground (arith, a, b, c, d, f, h),
                ground (arith, a, b, c, d, f, h, update_ok m n version s.tasks d),
                ground (arith, a, b, c, d, f, h, append_ok e y sequence s.events f),
                λ w. ground (arith, a, b, c, d, f, h, append-history e y sequence s.events f w),
              )
            ]
          ]
        ]
      ]
    ]
