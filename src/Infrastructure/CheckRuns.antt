-- ===== src/Infrastructure/CheckRuns.antt =====
-- infrastructure/github_checks.py: `GitHubCheckSource`.
pub mod Observed
pub mod Exact
use meta_loop.Models.Identity.{is_phase8_sha}
use meta_loop.Base.Int.{pos}
use meta_loop.Models.Checks.{
  CheckRunStatus, CheckRunConclusion, CheckRunObservation, queued, success, check_observation,
  in_progress, failure, neutral, skipped, action_required,
}
use meta_loop.Models.Publication.{split_slash}
use meta_loop.Base.Clock.{Time}
use meta_loop.Base.Json.{
  Json, Fields, Items, obj, str, num, arr, null, field_of, as_text, items_list,
}
use meta_loop.Base.{
  String, List, ℕ, Bool, Option, Result, [], ◌∷◌, some, none, ok, err, guard, if◌then◌else◌, ◌==◌,
  ◌||◌, ◌&&◌, not, all, leb, validation, codes, length, is_alnum, nat_eq, string_eq, str_append,
  true, false, ◌++◌, option_eq,
}

-- `datetime.fromisoformat`: nothing where it raises, and no time where it gives one without a zone
abbrev pub FromIso : Type 0
FromIso = List ℕ → Option (Option Time)

-- `value.replace("Z", "+00:00")`
unfoldable pub replace_z : List ℕ → List ℕ
replace_z [] = []
replace_z (c ∷ s) = let rest = replace_z s in if c == b'Z' then codes "+00:00" ++ rest else c ∷ rest

-- `_parse_time`
unfoldable pub parse_time : FromIso → Option Json → Result Time
parse_time iso value = elim (as_text value) [
  | none ↦ err validation
  | some s ↦ elim (iso (replace_z (codes s))) [
    | none ↦ err validation
    | some none ↦ err validation
    | some (some t) ↦ ok t
  ]
]

-- `[A-Za-z0-9_.-]+`
unfoldable pub is_repository_word : List ℕ → Bool
is_repository_word [] = false
is_repository_word (c ∷ s) = all (λ d. is_alnum d || d == b'_' || d == b'.' || d == b'-') (c ∷ s)

-- `_REPOSITORY.fullmatch`
unfoldable pub is_repository : String → Bool
is_repository name =
    length (split_slash (codes name)) == 2 && all is_repository_word (split_slash (codes name))

-- `CheckRunStatus(value)`
unfoldable pub status_of : Option String → Option CheckRunStatus
status_of none = none
status_of (some s) =
    if s == "queued"
    then some queued
    else if s == "in_progress"
    then some in_progress
    else if s == "completed"
    then some CheckRunStatus.completed
    else none

-- `CheckRunConclusion(value)`
unfoldable pub conclusion_of : Option String → Option CheckRunConclusion
conclusion_of none = none
conclusion_of (some s) =
    if s == "success"
    then some success
    else if s == "failure"
    then some failure
    else if s == "neutral"
    then some neutral
    else if s == "skipped"
    then some skipped
    else if s == "cancelled"
    then some CheckRunConclusion.cancelled
    else if s == "timed_out"
    then some CheckRunConclusion.timed_out
    else if s == "action_required"
    then some action_required
    else none

-- `value is None`, for a key that is missing too
unfoldable pub is_null : Option Json → Bool
is_null none = true
is_null (some null) = true
is_null (some _) = false

-- the conclusion, and the value of the time that counts
unfoldable pub ending : CheckRunStatus → Fields → Result (Option CheckRunConclusion × Option Json)
ending CheckRunStatus.completed fs = elim (conclusion_of (as_text (field_of "conclusion" fs))) [
  | none ↦ err validation
  | some c ↦ ok (some c, field_of "completed_at" fs)
]
ending _ fs =
    guard (not (is_null (field_of "conclusion" fs))) validation
      (ok (none, field_of "started_at" fs))

abbrev pub observation_of :
    String
    → String
    → String
    → CheckRunStatus
    → Option CheckRunConclusion
    → Time
    → CheckRunObservation
observation_of publication_id head_sha name status conclusion observed_at = record {
  publication_id = publication_id;
  head_sha = head_sha;
  check_name = name;
  status = status;
  conclusion = conclusion;
  observed_at = observed_at;
  schema_version = pos 1;
}

-- what follows the tests on the name and the status
unfoldable pub timed :
    FromIso
    → String
    → String
    → String
    → CheckRunStatus
    → Result (Option CheckRunConclusion × Option Json)
    → Result CheckRunObservation
timed iso publication_id head_sha name status (err e) = err e
timed iso publication_id head_sha name status (ok (conclusion, value)) =
    elim (parse_time iso value) [
      | err e ↦ err e
      | ok t ↦ check_observation (observation_of publication_id head_sha name status conclusion t)
    ]

-- `_normalize`
unfoldable pub normalize : FromIso → String → String → Json → Result CheckRunObservation
normalize iso publication_id head_sha (obj fs) =
    guard (not (as_text (field_of "head_sha" fs) == some head_sha)) validation
      (elim (as_text (field_of "name" fs)) [
        | none ↦ err validation
        | some name ↦ elim (status_of (as_text (field_of "status" fs))) [
          | none ↦ err validation
          | some status ↦ timed iso publication_id head_sha name status (ending status fs)
        ]
      ])
normalize iso publication_id head_sha _ = err validation

-- the loop over the runs
unfoldable pub normalize_all :
    FromIso → String → String → List Json → Result (List CheckRunObservation)
normalize_all iso publication_id head_sha [] = ok []
normalize_all iso publication_id head_sha (x ∷ xs) =
    elim (normalize iso publication_id head_sha x) [
      | err e ↦ err e
      | ok o ↦ elim (normalize_all iso publication_id head_sha xs) [
        | err e ↦ err e
        | ok os ↦ ok (o ∷ os)
      ]
    ]

-- all runs on one page: as many as the total says, and at most a hundred
unfoldable pub complete_runs : Option Json → Option Json → Option (List Json)
complete_runs (some (num (pos n))) (some (arr xs)) =
    if leb n 100 && length (items_list xs) == n then some (items_list xs) else none
complete_runs _ _ = none

unfoldable pub runs_of : Json → Option (List Json)
runs_of (obj fs) = complete_runs (field_of "total_count" fs) (field_of "check_runs" fs)
runs_of _ = none

-- `f"/repos/{repository_name}/commits/{head_sha}/check-runs?per_page=100"`
abbrev pub check_path : String → String → String
check_path repository_name head_sha = str_append "/repos/" (
    str_append repository_name
      (str_append "/commits/" (str_append head_sha "/check-runs?per_page=100")))

-- `read`; the transport's answer is a function of the path
unfoldable pub read_checks :
    (String → Result Json) → FromIso → String → String → String → Result (List CheckRunObservation)
read_checks get_json iso publication_id repository_name head_sha =
    guard (not (is_repository repository_name && is_phase8_sha head_sha 40)) validation
      (elim (get_json (check_path repository_name head_sha)) [
        | err e ↦ err e
        | ok payload ↦ elim (runs_of payload) [
          | none ↦ err validation
          | some runs ↦ normalize_all iso publication_id head_sha runs
        ]
      ])
