-- ===== src/Models/Runner.antt =====
-- application/models.py: runner sessions and worker results.
use meta_loop.Domain.Artifacts.{ArtifactRef, ref_to_dict}
use meta_loop.Base.Json.{Json, dumps, obj, Items, field, nil, num, str, cons, arr, end}
use meta_loop.Domain.Enums.{
  Role, TaskStatus, planner, design_reviewer, implementer, role_value, patch_reviewer, status_value,
  role_eq,
}
use meta_loop.Base.{
  Eq, String, Result, List, String-discrete, Option, Bool, guard, ℕ, ◌==◌, ◌!=◌, is_empty, ◌||◌,
  validation, ◌∷◌, ltb, not, len, ok, ◌&&◌, [],
}
use meta_loop.Base.Int.{ℤ, pos, ltb_ℤ, int_eq, leb_ℤ}

pub data RunnerSessionState : Type 0 where
  requested succeeded failed cancelled : RunnerSessionState

unfoldable pub RunnerSessionState-discrete : Discrete RunnerSessionState
RunnerSessionState-discrete = hlevel

instance abbrev pub runner_state_eq : Eq RunnerSessionState
runner_state_eq = record { dec = RunnerSessionState-discrete }

-- the roles that run in a session
abbrev pub is_worker_role : Role → Bool
is_worker_role r = r == planner || r == design_reviewer || r == implementer || r == patch_reviewer

pub record RunnerSessionRequest : Type 0 where
  pub session_id : String
  pub task_id : String
  pub role : Role
  pub expected_task_version : ℤ
  pub expected_sequence : ℤ
  pub input_artifacts : List ArtifactRef
  pub timeout_seconds : ℤ
  pub correlation_id : String
  pub schema_version : ℤ

-- `RunnerSessionRequest.__post_init__`
unfoldable pub check_session_request : RunnerSessionRequest → Result RunnerSessionRequest
check_session_request r =
    guard
      (r.schema_version != pos 1
        || is_empty r.session_id
        || is_empty r.task_id
        || is_empty r.correlation_id)
      validation
      (guard (not (is_worker_role r.role)) validation (
        guard
          (ltb_ℤ r.expected_task_version (pos 0)
            || ltb_ℤ r.expected_sequence (pos 0)
            || not (leb_ℤ (pos 1) r.timeout_seconds && leb_ℤ r.timeout_seconds (pos 3600)))
          validation (ok r)))

-- a list of artifact references in JSON
abbrev pub refs_to_items : List ArtifactRef → Items
refs_to_items [] = nil
refs_to_items (a ∷ rest) = cons (ref_to_dict a) (refs_to_items rest)

unfoldable pub session_request_to_dict : RunnerSessionRequest → Json
session_request_to_dict r = obj (
    field "schema_version" (num r.schema_version) (
      field "session_id" (str r.session_id) (
        field "task_id" (str r.task_id) (
          field "role" (str (role_value r.role)) (
            field "expected_task_version" (num r.expected_task_version) (
              field "expected_sequence" (num r.expected_sequence) (
                field "input_artifacts" (arr (refs_to_items r.input_artifacts)) (
                  field "timeout_seconds" (num r.timeout_seconds)
                    (field "correlation_id" (str r.correlation_id) end)))))))))

unfoldable pub session_request_canonical : RunnerSessionRequest → List ℕ
unfolding session_request_to_dict dumps
session_request_canonical r = dumps (session_request_to_dict r)

pub record RunnerSessionOutcome : Type 0 where
  pub session_id : String
  pub state : RunnerSessionState
  pub summary : String

unfoldable pub RunnerSessionOutcome-discrete : Discrete RunnerSessionOutcome
unfolding String-discrete
RunnerSessionOutcome-discrete = hlevel String-discrete

instance abbrev pub outcome_eq : Eq RunnerSessionOutcome
outcome_eq = record { dec = RunnerSessionOutcome-discrete }

-- `RunnerSessionOutcome.__post_init__`
unfoldable pub check_outcome : RunnerSessionOutcome → Result RunnerSessionOutcome
check_outcome o =
    guard
      (is_empty o.session_id
        || o.state == RunnerSessionState.requested
        || is_empty o.summary
        || ltb 512 (len o.summary))
      validation (ok o)

pub record RunnerSessionRecord : Type 0 where
  pub request : RunnerSessionRequest
  pub state : RunnerSessionState
  pub outcome : Option RunnerSessionOutcome

pub record RunnerSessionReceipt : Type 0 where
  pub session_id : String
  pub state : RunnerSessionState
  pub created : Bool

pub record WorkerIdentity : Type 0 where
  pub worker_id : String
  pub role : Role

unfoldable pub check_worker : WorkerIdentity → Result WorkerIdentity
check_worker w = guard (is_empty w.worker_id || not (is_worker_role w.role)) validation (ok w)

pub record WorkerResult : Type 0 where
  pub result_id : String
  pub session_id : String
  pub task_id : String
  pub worker : WorkerIdentity
  pub target : TaskStatus
  pub summary : String
  pub expected_task_version : ℤ
  pub expected_sequence : ℤ
  pub schema_version : ℤ

-- `WorkerResult.__post_init__`
unfoldable pub check_worker_result : WorkerResult → Result WorkerResult
check_worker_result r =
    guard
      (is_empty r.result_id
        || is_empty r.session_id
        || is_empty r.task_id
        || is_empty r.summary
        || ltb 512 (len r.summary))
      validation
      (guard
        (ltb_ℤ r.expected_task_version (pos 0)
          || ltb_ℤ r.expected_sequence (pos 0)
          || r.schema_version != pos 1)
        validation (ok r))

unfoldable pub worker_result_canonical : WorkerResult → List ℕ
unfolding dumps
worker_result_canonical r = dumps (
    obj (
      field "schema_version" (num (pos 1)) (
        field "result_id" (str r.result_id) (
          field "session_id" (str r.session_id) (
            field "task_id" (str r.task_id) (
              field "worker_id" (str r.worker.worker_id) (
                field "role" (str (role_value r.worker.role)) (
                  field "target" (str (status_value r.target)) (
                    field "summary" (str r.summary) (
                      field "expected_task_version" (num r.expected_task_version)
                        (field "expected_sequence" (num r.expected_sequence) end)))))))))))

pub record WorkerResultReceipt : Type 0 where
  pub result_id : String
  pub created : Bool
