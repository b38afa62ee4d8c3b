-- ===== src/Memory/Sessions.antt =====
-- infrastructure/memory.py: `InMemoryRunnerSessionStore` and `InMemoryWorkerResultLedger`.
use meta_loop.Base.{
  Dict, Exec, String, Option, Each, get, ok, some, ◌≡◌, Option-cases, string_eq, if◌then◌else◌,
  none, inl, arith, ◌!=◌, ◌==◌, err, inr, get-put, idempotency_conflict, validation, false, put,
  true, list_eq, nat_eq, Each-put, refl,
}
use meta_loop.Models.Runner.{
  RunnerSessionState, RunnerSessionRequest, RunnerSessionOutcome, RunnerSessionRecord,
  RunnerSessionReceipt, WorkerResult, WorkerResultReceipt, session_request_canonical,
  worker_result_canonical, outcome_eq,
}

abbrev pub Sessions : Type 0
Sessions = Dict String RunnerSessionRecord

unfoldable pub record_session : RunnerSessionRequest → Exec Sessions RunnerSessionReceipt
record_session r s = elim (get r.session_id s) [
  | some current ↦ (
    if session_request_canonical current.request != session_request_canonical r
        then err idempotency_conflict
        else ok (record { session_id = r.session_id; state = current.state; created = false }),
    s,
  )
  | none ↦ (
    ok (record { session_id = r.session_id; state = RunnerSessionState.requested; created = true }),
    put r.session_id (record { request = r; state = RunnerSessionState.requested; outcome = none })
        s,
  )
]

unfoldable pub get_session : String → Exec Sessions (Option RunnerSessionRecord)
get_session session_id s = (ok (get session_id s), s)

set_first_outcome :
    RunnerSessionOutcome
    → RunnerSessionRecord
    → Option RunnerSessionOutcome
    → Exec Sessions RunnerSessionRecord
set_first_outcome o current (some present) s =
    (if present == o then ok current else err idempotency_conflict, s)
set_first_outcome o current none s =
    let updated : RunnerSessionRecord = record current { state = o.state; outcome = some o } in
    (ok updated, put o.session_id updated s)

unfoldable pub set_outcome : RunnerSessionOutcome → Exec Sessions RunnerSessionRecord
unfolding set_first_outcome
set_outcome o s = elim (get o.session_id s) [
  | none ↦ (err validation, s)
  | some current ↦ set_first_outcome o current current.outcome s
]

abbrev pub Results : Type 0
Results = Dict String WorkerResult

unfoldable pub record_result : WorkerResult → Exec Results WorkerResultReceipt
record_result r s = elim (get r.result_id s) [
  | some current ↦ (
    if worker_result_canonical current != worker_result_canonical r
        then err idempotency_conflict
        else ok (record { result_id = r.result_id; created = false }),
    s,
  )
  | none ↦ (ok (record { result_id = r.result_id; created = true }), put r.result_id r s)
]

unfoldable pub get_result : String → Exec Results (Option WorkerResult)
get_result result_id s = (ok (get result_id s), s)

-- A session is requested until it has an outcome, and then in the outcome's state.
abbrev pub StateFits : RunnerSessionState → Option RunnerSessionOutcome → Type 0
StateFits state none = state ≡ RunnerSessionState.requested
StateFits state (some o) = state ≡ o.state

abbrev pub IsSession : String → RunnerSessionRecord → Type 0
IsSession k r = StateFits r.state r.outcome

record_session-IsSession :
    (r : RunnerSessionRequest) (s : Sessions)
    → Each IsSession s
    → Each IsSession (record_session r s).1
unfolding record_session
record_session-IsSession r s h = elim (Option-cases (get r.session_id s)) [
  | inl e ↦
      rw (e, record_session)
        (Each-put IsSession r.session_id
          (record { request = r; state = RunnerSessionState.requested; outcome = none }) s h refl)
  | inr (c, e) ↦ rw (e, record_session) h
]

set_outcome-IsSession :
    (o : RunnerSessionOutcome) (s : Sessions)
    → Each IsSession s
    → Each IsSession (set_outcome o s).1
unfolding set_outcome
set_outcome-IsSession o s h = elim (Option-cases (get o.session_id s)) [
  | inl e ↦ rw (e, set_outcome) h
  | inr (c, e) ↦ elim (Option-cases c.outcome) [
    | inl n ↦
        rw (e, set_outcome)
          (rw (n, set_first_outcome)
            (Each-put IsSession o.session_id (record c { state = o.state; outcome = some o }) s h
              refl))
    | inr (x, n) ↦ rw (e, set_outcome) (rw (n, set_first_outcome) h)
  ]
]

-- If every session is in the state that fits its outcome, this still holds after a request and
-- after an outcome.
pub calls-IsSession :
    (r : RunnerSessionRequest) (o : RunnerSessionOutcome) (s : Sessions)
    → Each IsSession s
    → Each IsSession (record_session r s).1 × Each IsSession (set_outcome o s).1
calls-IsSession r o s h = (record_session-IsSession r s h, set_outcome-IsSession o s h)

-- An outcome is final: once a session has one, no request and no outcome changes the session.
pub outcome_final :
    (k : String) (r : RunnerSessionRecord) (o present : RunnerSessionOutcome)
    (q : RunnerSessionRequest) (s : Sessions)
    → get k s ≡ some r
    → r.outcome ≡ some present
    → (get k (set_outcome o s).1 ≡ some r) × (get k (record_session q s).1 ≡ some r)
unfolding set_outcome record_session
outcome_final k r o present q s g p = (
  elim (Option-cases (get o.session_id s)) [
    | inl e ↦ ground arith
    | inr (c, e) ↦
        ground (arith, get-put o.session_id k (record c { state = o.state; outcome = some o }) s)
  ],
  ground (
    arith,
    get-put q.session_id k
        (record { request = q; state = RunnerSessionState.requested; outcome = none }) s,
  ),
)
