-- ===== src/Services/Sessions/Checked.antt =====
-- application/runners.py: what a new runner session was checked against.
use meta_loop.Domain.Event.{new_event}
use meta_loop.Memory.Events.{history, append}
use meta_loop.Base.Int.{pos}
use meta_loop.Domain.Enums.{r3, implementer, risk_eq}
use meta_loop.Base.Clock.{Time}
use meta_loop.Base.{
  ◌≡◌, false, ok, String, ◌≢◌, arith, Bool-cases, true, ◌⊎◌, ◌==◌, get, inl, some, inr, length,
  none, Option-cases, Result-cases, get-put_self, string_eq,
}
use meta_loop.Memory.Sessions.{record_session}
use meta_loop.Memory.UnitOfWork.{Store}
use meta_loop.Domain.Task.{Task}
use meta_loop.Services.Sessions.{
  check_request, request_session, request_new, has_foreign, requested_event,
}
use meta_loop.Models.Runner.{RunnerSessionRequest, RunnerSessionReceipt, RunnerSessionState}

-- the request fits the task and the stores
abbrev pub Fits : RunnerSessionRequest → Task → Store → Type 0
Fits r t s =
    (s.fuse.engaged ≡ false)
    × ((t.risk.effective ≢ r3) ⊎ (r.role ≢ implementer))
    × (t.version ≡ r.expected_task_version)
    × (pos (length (history t.task_id s.events)) ≡ r.expected_sequence)
    × (has_foreign r t ≡ false)

check_request-Fits :
    (r : RunnerSessionRequest) (t : Task) (s : Store) (u : Unit {0})
    → check_request r t s ≡ ok u
    → Fits r t s
unfolding check_request
check_request-Fits r t s u h = (
  ground (arith, h),
  elim (Bool-cases (t.risk.effective == r3)) [
    | inl a ↦ inr (λ e. ground (arith, a, e, h))
    | inr a ↦ inl (λ e. ground (arith, a, e))
  ],
  ground (arith, h),
  ground (arith, h),
  ground (arith, h),
)

-- A session is created only for a stored task that the request fits: the fuse is not engaged, the task
-- is below R3 or the role is not the implementer's, the version and the number of events are the
-- expected ones, and every input is an artifact of the task. The session is then stored.
pub request_session-Fits :
    (r : RunnerSessionRequest) (now : Time) (id : String) (s : Store) (c : RunnerSessionReceipt)
    → (request_session r now id s).0 ≡ ok c
    → c.created ≡ true
    → (t : Task) × (get r.task_id s.tasks ≡ some t)
      × Fits r t s
      × (get r.session_id (request_session r now id s).1.runner_sessions
          ≡ some (record { request = r; state = RunnerSessionState.requested; outcome = none }))
unfolding request_session request_new record_session
request_session-Fits r now id s c h k = elim (Option-cases (get r.task_id s.tasks)) [
  | inl a ↦ ground (arith, a, h)
  | inr (t, a) ↦ elim (Option-cases (get r.session_id s.runner_sessions)) [
    | inr (x, b) ↦ ground (arith, a, b, h, k)
    | inl b ↦ elim (Result-cases (check_request r t s)) [
      | inr (x, d) ↦ ground (arith, a, b, d, h)
      | inl (u, d) ↦ elim (Result-cases (new_event (requested_event r t now id))) [
        | inr (x, e) ↦ ground (arith, a, b, d, e, h)
        | inl (ev, e) ↦ elim (Result-cases (append ev r.expected_sequence s.events).0) [
          | inr (x, f) ↦ ground (arith, a, b, d, e, f, h)
          | inl (y, f) ↦ (
            t,
            a,
            check_request-Fits r t s u d,
            ground (
              arith,
              a,
              b,
              d,
              e,
              f,
              get-put_self r.session_id
                  (record { request = r; state = RunnerSessionState.requested; outcome = none })
                  s.runner_sessions,
            ),
          )
        ]
      ]
    ]
  ]
]
