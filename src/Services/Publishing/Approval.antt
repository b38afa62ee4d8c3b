-- ===== src/Services/Publishing/Approval.antt =====
-- application/publication.py: `PublicationApprovalService`.
pub mod Review
pub mod Bound
use meta_loop.Memory.Approvals.{append_approval}
use meta_loop.Services.Publishing.{passed_head, on_approvals}
use meta_loop.Base.Int.{pos}
use meta_loop.Services.Ports.{check_fuse}
use meta_loop.Memory.Publications.{result_source, session_of}
use meta_loop.Domain.Enums.{ready_to_publish, patch_reviewer, r3, status_eq, risk_eq, role_eq}
use meta_loop.Models.Review.{PublicationReviewDecision, approved, check_decision}
use meta_loop.Memory.UnitOfWork.{Store}
use meta_loop.Domain.Artifacts.{ArtifactRef, artifact_ref_eq}
use meta_loop.Models.Publication.{PublicationIntent, PublicationRecord, PreparedHead}
use meta_loop.Base.Clock.{Time}
use meta_loop.Models.Queue.{CatalogedArtifact}
use meta_loop.Models.Runner.{WorkerResult, RunnerSessionRecord, RunnerSessionState, runner_state_eq}
use meta_loop.Domain.Task.{Task}
use meta_loop.Base.{
  ◌>>=◌, ◌>>◌, Option, String, Exec, Bool, some, false, ◌==◌, if◌then◌else◌, ◌&&◌, ◌!=◌, none, gets,
  string_eq, or_raise, elem, get, validation, raise_if, not, lift,
}

-- the task is still the one that the publication was prepared for
unfoldable pub is_eligible : Option Task → PublicationIntent → Bool
is_eligible none i = false
is_eligible (some t) i =
    t.status == ready_to_publish
    && t.risk.effective != r3
    && t.repository.name == i.repository_name
    && t.repository.revision == i.base_sha

-- the tests on the reviewer's result, its session and the patch
unfoldable pub is_review :
    Option WorkerResult
    → Option RunnerSessionRecord
    → Option CatalogedArtifact
    → PublicationIntent
    → Bool
is_review (some r) (some s) (some patch) i =
    r.task_id == i.task_id
    && r.worker.role == patch_reviewer
    && r.target == ready_to_publish
    && s.request.task_id == i.task_id
    && s.request.role == patch_reviewer
    && s.state == RunnerSessionState.succeeded
    && r.session_id == s.request.session_id
    && elem patch.reference s.request.input_artifacts
is_review _ _ _ i = false

unfoldable pub owned_reference : Option CatalogedArtifact → String → Option ArtifactRef
owned_reference none result_id = none
owned_reference (some a) result_id =
    if a.source_kind == result_source result_id then some a.reference else none

abbrev pub decision_of :
    String
    → String
    → Time
    → PublicationRecord
    → PreparedHead
    → WorkerResult
    → ArtifactRef
    → PublicationReviewDecision
decision_of publication_id approval_id decided_at p h r reference = record {
  approval_id = approval_id;
  publication_id = publication_id;
  task_id = p.intent.task_id;
  session_id = r.session_id;
  result_id = r.result_id;
  approval_artifact = reference;
  patch_digest = p.intent.patch_digest;
  base_sha = h.base_sha;
  tree_sha = h.tree_sha;
  head_sha = h.head_sha;
  reviewer_id = r.worker.worker_id;
  decision = approved;
  decided_at = decided_at;
  schema_version = pos 1;
}

-- `approve`
unfoldable pub approve :
    String → String → String → String → Time → Exec Store (PublicationReviewDecision × Bool)
approve publication_id approval_id result_id artifact_digest decided_at = do
  check_fuse
  s ← gets (λ s. s)
  found ← or_raise (passed_head (get publication_id s.publications)) validation
  raise_if (not (is_eligible (get found.0.intent.task_id s.tasks) found.0.intent)) validation
  let result = get result_id s.worker_results
  raise_if
      (not (
        is_review result (session_of result s.runner_sessions)
          (get found.0.intent.patch_digest s.artifacts) found.0.intent))
      validation
  reference ← or_raise (owned_reference (get artifact_digest s.artifacts) result_id) validation
  r ← or_raise result validation
  decision ← lift (
      check_decision
        (decision_of publication_id approval_id decided_at found.0 found.1 r reference))
  on_approvals (λ w. append_approval w decision)
