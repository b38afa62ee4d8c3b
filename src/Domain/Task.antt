-- ===== src/Domain/Task.antt =====
-- domain/task.py: a maintenance task, and the operations that move it through its life. A method
-- that returns a new `Task` or raises is a function into `Result Task`.
pub mod Transition
pub mod Lifecycle
use meta_loop.Base.Clock.{Time}
use meta_loop.Base.Int.{ℤ, pos, ◌+ℤ◌, leb_ℤ, int_eq, ℤ-discrete}
use meta_loop.Base.{
  ℕ, Bool, false, not, ◌&&◌, ◌||◌, List, [], ◌∷◌, ◌++◌, Option, none, some, String, Eq, ◌==◌, ◌!=◌,
  String-discrete, Option-discrete, string_eq, nat_eq, option_eq, list_eq, elem, is_empty, is_falsy,
  str_lt, codes, Result, ok, err, validation, invalid_transition, guard, if◌then◌else◌, ℕ_discrete,
}
use meta_loop.Domain.Artifacts.{ArtifactRef, ArtifactRef-discrete, artifact_ref_eq}
use meta_loop.Domain.Enums.{
  RiskClass, Role, TaskStatus, r3, system, validator, planner, design_reviewer, implementer,
  patch_reviewer, received, validated, planned, design_review, implementing, preflight,
  patch_review, ready_to_publish, proposal_ready, rework_required, blocked, failed, completed,
  risk_eq, role_eq, status_eq, risk_value,
}

pub record TaskSource : Type 0 where
  pub kind : String
  pub reference : String

unfoldable pub new_source : String → String → Result TaskSource
new_source kind reference =
    guard (is_empty kind || is_empty reference) validation
      (ok (record { kind = kind; reference = reference }))

pub record RepositoryTarget : Type 0 where
  pub name : String
  pub revision : String

-- `name.startswith(("/", "\\"))`
starts_with_slash : List ℕ → Bool
starts_with_slash [] = false
starts_with_slash (c ∷ s) = c == b'/' || c == b'\\'

unfoldable pub new_repository : String → String → Result RepositoryTarget
unfolding starts_with_slash
new_repository name revision =
    guard (is_empty name || is_empty revision || starts_with_slash (codes name)) validation
      (ok (record { name = name; revision = revision }))

pub record RiskAssessment : Type 0 where
  pub proposed : RiskClass
  pub validated : RiskClass
  pub effective : RiskClass
  pub escalation_reason : Option String
  pub governance_revision : Option String

-- `RiskAssessment.__post_init__`
unfoldable pub check_risk : RiskAssessment → Result RiskAssessment
check_risk r =
    guard
      (str_lt (risk_value r.effective) (risk_value r.validated)
        || str_lt (risk_value r.effective) (risk_value r.proposed))
      validation
      (guard (r.effective != r.proposed && is_falsy r.escalation_reason) validation (ok r))

pub record Task : Type 0 where
  pub task_id : String
  pub source : TaskSource
  pub repository : RepositoryTarget
  pub risk : RiskAssessment
  pub created_at : Time
  pub status : TaskStatus
  pub version : ℤ
  pub rework_round : ℤ
  pub artifacts : List ArtifactRef

unfoldable pub RiskAssessment-discrete : Discrete RiskAssessment
unfolding String-discrete Option-discrete
RiskAssessment-discrete = hlevel (String-discrete)

unfoldable pub Task-discrete : Discrete Task
unfolding String-discrete ℤ-discrete RiskAssessment-discrete ArtifactRef-discrete ℕ_discrete
Task-discrete =
    hlevel (String-discrete, ℤ-discrete, RiskAssessment-discrete, ArtifactRef-discrete, ℕ_discrete)

instance abbrev pub task_eq : Eq Task
task_eq = record { dec = Task-discrete }

-- `_TRANSITIONS`
abbrev pub allowed : TaskStatus → Option (TaskStatus × Role)
allowed received = some (validated, validator)
allowed validated = some (planned, planner)
allowed planned = some (design_review, design_reviewer)
allowed design_review = some (implementing, implementer)
allowed implementing = some (preflight, implementer)
allowed preflight = some (patch_review, patch_reviewer)
allowed patch_review = some (ready_to_publish, patch_reviewer)
allowed _ = none

-- `allowed == (target, actor)`
unfoldable pub is_allowed : Option (TaskStatus × Role) → TaskStatus → Role → Bool
is_allowed none target actor = false
is_allowed (some (t, a)) target actor = t == target && a == actor

abbrev pub is_terminal : TaskStatus → Bool
is_terminal s = s == failed || s == completed

-- `replace(self, status=target, version=self.version + 1)`
abbrev pub moved : Task → TaskStatus → Task
moved t target = record t { status = target; version = t.version +ℤ pos 1 }

unfoldable pub create : String → TaskSource → RepositoryTarget → RiskAssessment → Time → Result Task
create task_id source repository risk created_at = guard (is_empty task_id) validation (
    ok (record {
      task_id = task_id;
      source = source;
      repository = repository;
      risk = risk;
      created_at = created_at;
      status = received;
      version = pos 0;
      rework_round = pos 0;
      artifacts = [];
    }))

unfoldable pub transition : Task → TaskStatus → Role → Result Task
transition t target actor =
    if is_terminal t.status
    then err invalid_transition
    else if target == failed || target == blocked || target == completed
    then err invalid_transition
    else if t.status == design_review && target == proposal_ready
    then (if actor == design_reviewer && t.risk.effective == r3
        then ok (moved t target)
        else err invalid_transition)
    else if t.status == design_review && target == implementing && t.risk.effective == r3
    then ok (moved t blocked)
    else if not (is_allowed (allowed t.status) target actor)
    then err invalid_transition
    else if (target == implementing || target == ready_to_publish)
        && is_falsy t.risk.governance_revision
    then ok (moved t blocked)
    else ok (moved t target)

unfoldable pub block : Task → Result Task
block t = guard (is_terminal t.status) invalid_transition (ok (moved t blocked))

unfoldable pub fail : Task → Role → Result Task
fail t actor =
    guard (is_terminal t.status || actor != system) invalid_transition (ok (moved t failed))

unfoldable pub request_rework : Task → Role → Result Task
request_rework t actor =
    guard (not (actor == design_reviewer || actor == patch_reviewer)) invalid_transition (
      let next_round = t.rework_round +ℤ pos 1 in
      let status = if leb_ℤ (pos 3) next_round then blocked else rework_required in
      ok (record t { status = status; rework_round = next_round; version = t.version +ℤ pos 1 }))

unfoldable pub restart_rework : Task → Role → Result Task
restart_rework t actor =
    guard (t.status != rework_required || actor != planner) invalid_transition
      (ok (moved t planned))

unfoldable pub unblock : Task → Role → Result Task
unblock t actor =
    guard (t.status != blocked || actor != validator) invalid_transition (ok (moved t validated))

unfoldable pub attach_artifact : Task → ArtifactRef → Task
attach_artifact t artifact =
    if elem artifact t.artifacts
    then t
    else record t { artifacts = t.artifacts ++ artifact ∷ []; version = t.version +ℤ pos 1 }
