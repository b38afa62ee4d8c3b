-- ===== src/Memory/Publications.antt =====
-- infrastructure/memory.py: `InMemoryPublicationLedger`.
pub mod Stages
pub mod Invariant
use meta_loop.Domain.Enums.{ready_to_publish, role_value, status_eq}
use meta_loop.Domain.Artifacts.{artifact_ref_eq}
use meta_loop.Models.Queue.{CatalogedArtifact}
use meta_loop.Domain.Task.{Task}
use meta_loop.Base.Int.{pos, ℤ, int_eq, ◌+ℤ◌}
use meta_loop.Base.{
  Dict, Option, String, Bool, Result, Exec, some, str_append, get, none, err, ok, string_eq, false,
  elem, ◌==◌, length, put, true, if◌then◌else◌, optimistic_conflict, ◌&&◌, ◌!=◌,
  idempotency_conflict, ◌||◌, validation, list_eq, nat_eq,
}
use meta_loop.Models.Publication.{
  PublicationState, reserved, prepared, verified, PublicationIntent, PreparedHead,
  VerificationResult, PublicationRecord, intent_canonical, check_record, publication_state_eq,
}
use meta_loop.Models.Runner.{RunnerSessionRecord, RunnerSessionState, WorkerResult, runner_state_eq}
use meta_loop.Memory.Tasks.{Tasks}
use meta_loop.Memory.Events.{Events, history}
use meta_loop.Memory.Ledgers.{Catalog}
use meta_loop.Memory.Sessions.{Sessions, Results}

abbrev pub Publications : Type 0
Publications = Dict String PublicationRecord

-- what the ledger reads of the other stores
pub record References : Type 0 where
  pub tasks : Tasks
  pub events : Events
  pub artifacts : Catalog
  pub worker_results : Results
  pub runner_sessions : Sessions

-- the session of a worker result, if both are there
abbrev pub session_of : Option WorkerResult → Sessions → Option RunnerSessionRecord
session_of none s = none
session_of (some r) s = get r.session_id s

-- `f"worker_result:{result_id}"`
abbrev pub result_source : String → String
result_source result_id = str_append "worker_result:" result_id

is_task_reference : Option Task → PublicationIntent → ℤ → Bool
is_task_reference none i sequence = false
is_task_reference (some t) i sequence =
    t.repository.name == i.repository_name
    && t.status == ready_to_publish
    && t.version == i.expected_task_version
    && sequence == i.expected_sequence

-- the second test; the first one has found the task
is_patch_reference : Option CatalogedArtifact → Option Task → PublicationIntent → Bool
is_patch_reference (some a) (some t) i =
    elem a.reference t.artifacts
    && a.reference.media_type == "text/x-diff"
    && a.source_kind == result_source i.worker_result_id
is_patch_reference _ _ i = false

is_result_reference : Option WorkerResult → Option RunnerSessionRecord → PublicationIntent → Bool
is_result_reference (some r) (some s) i =
    r.task_id == i.task_id
    && role_value r.worker.role == "implementer"
    && s.request.task_id == i.task_id
    && role_value s.request.role == "implementer"
    && s.state == RunnerSessionState.succeeded
is_result_reference _ _ i = false

-- `_validate_references`: all three tests raise the same error
unfoldable pub are_references : References → PublicationIntent → Bool
unfolding is_task_reference is_patch_reference is_result_reference
are_references w i =
    let task = get i.task_id w.tasks in
    let result = get i.worker_result_id w.worker_results in
    is_task_reference task i (pos (length (history i.task_id w.events)))
    && is_patch_reference (get i.patch_digest w.artifacts) task i
    && is_result_reference result (session_of result w.runner_sessions) i

abbrev pub reserved_record : PublicationIntent → PublicationRecord
reserved_record i = record {
  intent = i;
  state = reserved;
  version = pos 0;
  prepared_head = none;
  verification = none;
}

-- `PublicationRecord(...)` and the assignment, or what its `__post_init__` raises
unfoldable pub put_checked : String → PublicationRecord → Exec Publications PublicationRecord
put_checked k r s = elim (check_record r) [ err e ↦ (err e, s) | ok _ ↦ (ok r, put k r s) ]

abbrev pub was_created :
    Result PublicationRecord × Publications → Result (PublicationRecord × Bool) × Publications
was_created (ok r, s) = (ok (r, true), s)
was_created (err e, s) = (err e, s)

unfoldable pub reserve :
    References → PublicationIntent → Exec Publications (PublicationRecord × Bool)
reserve w i s = elim (get i.publication_id s) [
  | some current ↦ (
    if intent_canonical current.intent != intent_canonical i
        then err idempotency_conflict
        else ok (current, false),
    s,
  )
  | none ↦
      if are_references w i
      then was_created (put_checked i.publication_id (reserved_record i) s)
      else (err validation, s)
]

unfoldable pub get_publication : String → Exec Publications (Option PublicationRecord)
get_publication publication_id s = (ok (get publication_id s), s)

-- the record is there, in the expected version and in the given state
unfoldable pub is_current :
    Option PublicationRecord → ℤ → PublicationState → Option PublicationRecord
is_current none expected state = none
is_current (some r) expected state =
    if r.version != expected || r.state != state then none else some r

abbrev pub prepared_record : PublicationRecord → PreparedHead → PublicationRecord
prepared_record r p = record {
  intent = r.intent;
  state = prepared;
  version = r.version +ℤ pos 1;
  prepared_head = some p;
  verification = none;
}

abbrev pub verified_record :
    PublicationRecord → PreparedHead → VerificationResult → PublicationRecord
verified_record r p v = record {
  intent = r.intent;
  state = verified;
  version = r.version +ℤ pos 1;
  prepared_head = some p;
  verification = some v;
}

unfoldable pub record_prepared : PreparedHead → ℤ → Exec Publications PublicationRecord
record_prepared p expected s = elim (is_current (get p.publication_id s) expected reserved) [
  | none ↦ (err optimistic_conflict, s)
  | some r ↦
      if r.intent.patch_digest != p.patch_digest || r.intent.base_sha != p.base_sha
      then (err idempotency_conflict, s)
      else put_checked p.publication_id (prepared_record r p) s
]

unfoldable pub verify_head :
    VerificationResult
    → PublicationRecord
    → Option PreparedHead
    → Exec Publications PublicationRecord
verify_head v r none s = (err optimistic_conflict, s)
verify_head v r (some p) s =
    if p.head_sha != v.head_sha
    then (err idempotency_conflict, s)
    else put_checked v.publication_id (verified_record r p v) s

unfoldable pub record_verification : VerificationResult → ℤ → Exec Publications PublicationRecord
unfolding verify_head
record_verification v expected s = elim (is_current (get v.publication_id s) expected prepared) [
  | none ↦ (err optimistic_conflict, s)
  | some r ↦ verify_head v r r.prepared_head s
]
