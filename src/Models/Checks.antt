-- ===== src/Models/Checks.antt =====
-- application/models.py: observations of check runs, and the result of the check gate.
use meta_loop.Base.Json.{Json, null, obj, str, field, num, text, end}
use meta_loop.Base.Clock.{Time, isoformat}
use meta_loop.Models.Identity.{phase8_canonical, is_phase8_identifier, is_phase8_sha}
use meta_loop.Base.{
  Eq, String, Option, Result, Bool, guard, List, false, not, ℕ, some, true, ◌&&◌, none, ◌||◌, ◌!=◌,
  validation, ok, all,
}
use meta_loop.Base.Int.{ℤ, pos, int_eq}

pub data CheckRunStatus : Type 0 where
  queued in_progress completed : CheckRunStatus

pub data CheckRunConclusion : Type 0 where
  success failure neutral skipped cancelled timed_out action_required : CheckRunConclusion

unfoldable pub CheckRunStatus-discrete : Discrete CheckRunStatus
CheckRunStatus-discrete = hlevel

unfoldable pub CheckRunConclusion-discrete : Discrete CheckRunConclusion
CheckRunConclusion-discrete = hlevel

instance abbrev pub check_status_eq : Eq CheckRunStatus
check_status_eq = record { dec = CheckRunStatus-discrete }

instance abbrev pub check_conclusion_eq : Eq CheckRunConclusion
check_conclusion_eq = record { dec = CheckRunConclusion-discrete }

abbrev pub check_status_value : CheckRunStatus → String
check_status_value queued = "queued"
check_status_value in_progress = "in_progress"
check_status_value completed = "completed"

abbrev pub conclusion_value : CheckRunConclusion → String
conclusion_value success = "success"
conclusion_value failure = "failure"
conclusion_value neutral = "neutral"
conclusion_value skipped = "skipped"
conclusion_value cancelled = "cancelled"
conclusion_value timed_out = "timed_out"
conclusion_value action_required = "action_required"

pub record CheckRunObservation : Type 0 where
  pub publication_id : String
  pub head_sha : String
  pub check_name : String
  pub status : CheckRunStatus
  pub conclusion : Option CheckRunConclusion
  pub observed_at : Time
  pub schema_version : ℤ

-- a completed check has a conclusion, any other has none
has_due_conclusion : CheckRunStatus → Option CheckRunConclusion → Bool
has_due_conclusion completed none = false
has_due_conclusion completed (some c) = true
has_due_conclusion _ none = true
has_due_conclusion _ (some c) = false

-- `CheckRunObservation.__post_init__`
unfoldable pub check_observation : CheckRunObservation → Result CheckRunObservation
unfolding has_due_conclusion
check_observation o =
    guard
      (not (
          is_phase8_identifier o.publication_id
          && is_phase8_sha o.head_sha 40
          && is_phase8_identifier o.check_name)
        || o.schema_version != pos 1)
      validation (guard (not (has_due_conclusion o.status o.conclusion)) validation (ok o))

abbrev pub optional_conclusion : Option CheckRunConclusion → Json
optional_conclusion none = null
optional_conclusion (some c) = str (conclusion_value c)

unfoldable pub observation_canonical : CheckRunObservation → List ℕ
unfolding phase8_canonical
observation_canonical o = phase8_canonical (
    obj (
      field "schema_version" (num (pos 1)) (
        field "publication_id" (str o.publication_id) (
          field "head_sha" (str o.head_sha) (
            field "check_name" (str o.check_name) (
              field "status" (str (check_status_value o.status)) (
                field "conclusion" (optional_conclusion o.conclusion)
                  (field "observed_at" (text (isoformat o.observed_at)) end))))))))

pub record CheckGateResult : Type 0 where
  pub publication_id : String
  pub head_sha : String
  pub required_checks : List String
  pub passed : Bool
  pub schema_version : ℤ

-- `CheckGateResult.__post_init__`
unfoldable pub check_gate_result : CheckGateResult → Result CheckGateResult
check_gate_result g =
    guard
      (not (is_phase8_identifier g.publication_id && is_phase8_sha g.head_sha 40)
        || g.schema_version != pos 1)
      validation (guard (not (all is_phase8_identifier g.required_checks)) validation (ok g))
