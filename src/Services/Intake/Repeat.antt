-- ===== src/Services/Intake/Repeat.antt =====
-- application/controller.py: repeated intakes.
use meta_loop.Memory.Queue.{enqueue}
use meta_loop.Base.Int.{pos}
use meta_loop.Memory.Events.{append}
use meta_loop.Domain.Event.{new_event}
use meta_loop.Memory.UnitOfWork.{Store}
use meta_loop.Base.{
  ◌≡◌, String, ok, get, Bool-cases, some, none, is_empty, arith, Result-cases, ◌||◌, get-put_self,
  inl, string_eq, inr, Option-cases,
}
use meta_loop.Base.Clock.{Time}
use meta_loop.Models.Queue.{IntakeRecord}
use meta_loop.Memory.Ledgers.{create_intake}
use meta_loop.Domain.Task.{Task}
use meta_loop.Services.Intake.{
  IntakeRequest, start_new, start, start_again, intake_canonical, intake_task, received_event,
}
use meta_loop.Memory.Tasks.{create_task, Tasks}

create_ok :
    (t x : Task) (s : Tasks)
    → (create_task t s).0 ≡ ok x
    → get t.task_id (create_task t s).1 ≡ some t
unfolding create_task
create_ok t x s h = ground (arith, h, get-put_self t.task_id t s)

abbrev record_of : IntakeRequest → Task → IntakeRecord
record_of r t = record {
  request_id = r.request_id;
  canonical_request = intake_canonical r;
  task_id = t.task_id;
}

start_new-stores :
    (r : IntakeRequest) (now : Time) (id : String) (s : Store) (t : Task)
    → get r.request_id s.intakes ≡ none
    → (start_new r now id s).0 ≡ ok t
    → let s' = (start_new r now id s).1 in
      (get r.request_id s'.intakes ≡ some (record_of r t))
      × (get t.task_id s'.tasks ≡ some t)
      × (s'.fuse ≡ s.fuse)
unfolding start_new create_intake
start_new-stores r now id s t n h = elim (Result-cases (intake_task r now)) [
  | inr (x, a) ↦ ground (arith, a, h)
  | inl (m, a) ↦ elim (Result-cases (new_event (received_event r m now id))) [
    | inr (x, b) ↦ ground (arith, a, b, h)
    | inl (e, b) ↦ elim (Result-cases (create_task m s.tasks).0) [
      | inr (x, c) ↦ ground (arith, a, b, c, h)
      | inl (y, c) ↦ elim (Result-cases (append e (pos 0) s.events).0) [
        | inr (x, d) ↦ ground (arith, a, b, c, d, n, h)
        | inl (z, d) ↦ elim (Bool-cases r.enqueues) [
          | inr f ↦ (
            ground
                (arith, a, b, c, d, f, n, h, get-put_self r.request_id (record_of r m) s.intakes),
            ground (arith, a, b, c, d, f, n, h, create_ok m y s.tasks c),
            ground (arith, a, b, c, d, f, n, h),
          )
          | inl f ↦ elim (Result-cases (enqueue m.task_id r.priority now r.request_id s.queue).0) [
            | inr (x, g) ↦ ground (arith, a, b, c, d, f, g, n, h)
            | inl (q, g) ↦ (
              ground (
                arith,
                a,
                b,
                c,
                d,
                f,
                g,
                n,
                h,
                get-put_self r.request_id (record_of r m) s.intakes,
              ),
              ground (arith, a, b, c, d, f, g, n, h, create_ok m y s.tasks c),
              ground (arith, a, b, c, d, f, g, n, h),
            )
          ]
        ]
      ]
    ]
  ]
]

-- Intake is idempotent: once it has returned a task, the same request, at any later time, returns
-- this task again and changes nothing.
pub start_repeat :
    (r : IntakeRequest) (now later : Time) (id other : String) (s : Store) (t : Task)
    → (start r now id s).0 ≡ ok t
    → let s' = (start r now id s).1 in start r later other s' ≡ (ok t, s')
unfolding start start_again
start_repeat r now later id other s t h =
    elim (Bool-cases (is_empty r.request_id || s.fuse.engaged)) [
      | inl a ↦ ground (arith, a, h)
      | inr a ↦ elim (Option-cases (get r.request_id s.intakes)) [
        | inr (k, b) ↦ ground (arith, a, b, h)
        | inl b ↦ ground (arith, a, b, h, start_new-stores r now id s t b)
      ]
    ]
