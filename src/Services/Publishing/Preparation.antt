-- ===== src/Services/Publishing/Preparation.antt =====
-- application/publication.py: `PublicationPreparationService`.
pub mod Prepared
use meta_loop.Memory.Events.{history}
use meta_loop.Services.Publishing.{on_publications}
use meta_loop.Domain.Artifacts.{artifact_ref_eq}
use meta_loop.Memory.Publications.{result_source, session_of, record_prepared, reserve}
use meta_loop.Domain.Enums.{ready_to_publish, implementer, r3, role_eq, status_eq, risk_eq}
use meta_loop.Memory.UnitOfWork.{Store}
use meta_loop.Base.Int.{ℤ, pos, int_eq}
use meta_loop.Models.Queue.{CatalogedArtifact}
use meta_loop.Models.Runner.{WorkerResult, RunnerSessionRecord, RunnerSessionState, runner_state_eq}
use meta_loop.Models.Publication.{
  PreparedHead, PublicationRecord, PublicationIntent, reserved, publication_state_eq,
  prepared_head_eq,
}
use meta_loop.Services.Ports.{Governance, asks, check_fuse, need_task}
use meta_loop.Domain.Task.{Task}
use meta_loop.Base.{
  ◌>>=◌, ◌>>◌, String, Option, Result, Exec, List, if◌then◌else◌, Bool, ℕ, guard, false, get, ◌==◌,
  some, lift, ◌!=◌, ok, ◌&&◌, elem, not, raise_if, err, gets, str_append, validation, string_eq,
  unsupported_governance, none, idempotency_conflict, ◌||◌, length, pure, or_raise, option_eq,
  other_error,
}

-- the blob store, `sha256` and the preparer: what they give or raise for the call's arguments
pub record Tools : Type 0 where
  pub read : String → Result (List ℕ)
  pub sha256 : List ℕ → String
  pub prepare : PublicationIntent → List ℕ → Result PreparedHead

-- the tests on the task, up to the call of governance
unfoldable pub check_task : Task → PublicationIntent → ℤ → Result (Unit {0})
check_task t i sequence = guard (t.status != ready_to_publish) validation (
    guard (t.risk.effective == r3 || t.risk.governance_revision == none) validation (
      guard (t.version != i.expected_task_version || sequence != i.expected_sequence) validation (
        guard (t.repository.name != i.repository_name || t.repository.revision != i.base_sha)
          validation (ok tt))))

-- `_authorize`: what governance raises becomes the same error
unfoldable pub authorize_preparation : Governance → String → Result (Unit {0})
authorize_preparation g revision =
    if asks g revision "prepare_publication" then ok tt else err unsupported_governance

unfoldable pub is_implementer_result :
    Option WorkerResult → Option RunnerSessionRecord → PublicationIntent → Bool
is_implementer_result (some r) (some s) i =
    r.task_id == i.task_id
    && r.worker.role == implementer
    && r.target == ready_to_publish
    && s.request.task_id == i.task_id
    && s.request.role == implementer
    && s.state == RunnerSessionState.succeeded
is_implementer_result _ _ i = false

unfoldable pub is_task_patch : Option CatalogedArtifact → Task → PublicationIntent → Bool
is_task_patch none t i = false
is_task_patch (some a) t i =
    elem a.reference t.artifacts
    && a.reference.digest.value == i.patch_digest
    && a.reference.media_type == "text/x-diff"
    && a.source_kind == result_source i.worker_result_id

-- the tests on the result and the patch
unfoldable pub check_inputs : Task → PublicationIntent → Store → Result (Unit {0})
check_inputs t i s =
    let result = get i.worker_result_id s.worker_results in
    guard (not (is_implementer_result result (session_of result s.runner_sessions) i)) validation
      (guard (not (is_task_patch (get i.patch_digest s.artifacts) t i)) validation (ok tt))

-- `_validate_preconditions`
unfoldable pub check_preconditions : Governance → PublicationIntent → Exec Store Task
check_preconditions g i = do
  check_fuse
  task ← need_task i.task_id
  s ← gets (λ s. s)
  lift (check_task task i (pos (length (history i.task_id s.events))))
  lift (authorize_preparation g i.governance_revision)
  lift (check_inputs task i s)
  pure task

-- the prepared head names the intent's publication, patch, base and ref
unfoldable pub is_candidate_of : PreparedHead → PublicationIntent → Bool
is_candidate_of h i =
    h.publication_id == i.publication_id
    && h.patch_digest == i.patch_digest
    && h.base_sha == i.base_sha
    && h.deterministic_ref == str_append "refs/heads/meta-loop/" i.publication_id

unfoldable pub keep_head : PublicationRecord → PreparedHead → Exec Store PreparedHead
keep_head r h s = elim r.prepared_head [
  | some known ↦ (if known != h then err idempotency_conflict else ok known, s)
  | none ↦
      if r.state != reserved
      then (err idempotency_conflict, s)
      else (do
        updated ← on_publications (λ _. record_prepared h r.version)
        or_raise updated.prepared_head other_error)
          s
]

-- `prepare`; the two records that it looks up again are there after the tests
unfoldable pub prepare : Tools → Governance → PublicationIntent → Exec Store PreparedHead
prepare tools g i = do
  check_preconditions g i
  patch ← lift (tools.read i.patch_digest)
  raise_if (tools.sha256 patch != i.patch_digest) validation
  h ← lift (tools.prepare i patch)
  raise_if (not (is_candidate_of h i)) idempotency_conflict
  reserved_one ← on_publications (λ w. reserve w i)
  keep_head reserved_one.0 h
