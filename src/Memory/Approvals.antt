-- ===== src/Memory/Approvals.antt =====
-- infrastructure/memory.py: `InMemoryPublicationApprovalStore`.
pub mod Exact
use meta_loop.Domain.Enums.{role_value}
use meta_loop.Memory.Sessions.{Sessions, Results}
use meta_loop.Memory.Ledgers.{Catalog}
use meta_loop.Models.Queue.{CatalogedArtifact}
use meta_loop.Models.Review.{PublicationReviewDecision, decision_canonical}
use meta_loop.Memory.Publications.{Publications}
use meta_loop.Models.Runner.{RunnerSessionRecord, WorkerResult, RunnerSessionState, runner_state_eq}
use meta_loop.Base.{
  Dict, Option, String, Result, Exec, Bool, if◌then◌else◌, get, List, false, ◌!=◌, ◌==◌, some, ok,
  ◌||◌, ◌&&◌, none, keep, string_eq, not, err, values, validation, idempotency_conflict, guard,
  true, put, list_eq, nat_eq,
}
use meta_loop.Models.Publication.{
  verified, PublicationRecord, VerificationResult, PreparedHead, publication_state_eq,
  VerificationStatus, verification_status_eq,
}

abbrev pub Approvals : Type 0
Approvals = Dict String PublicationReviewDecision

-- `status.value == "succeeded"`
abbrev pub is_verified : Option VerificationResult → Bool
is_verified none = false
is_verified (some v) = v.status == VerificationStatus.succeeded

-- the publication's part of the first test, and the prepared head it finds
unfoldable pub verified_head : PublicationRecord → Option PreparedHead
verified_head r =
    if r.state != verified || not (is_verified r.verification) then none else r.prepared_head

abbrev matches_head : PublicationRecord → PreparedHead → PublicationReviewDecision → Bool
matches_head r p d =
    r.intent.task_id == d.task_id
    && r.intent.patch_digest == d.patch_digest
    && p.base_sha == d.base_sha
    && p.tree_sha == d.tree_sha
    && p.head_sha == d.head_sha

abbrev is_reviewer_result : RunnerSessionRecord → WorkerResult → PublicationReviewDecision → Bool
is_reviewer_result s r d =
    s.request.task_id == d.task_id
    && role_value s.request.role == "patch_reviewer"
    && s.state == RunnerSessionState.succeeded
    && r.task_id == d.task_id
    && r.session_id == d.session_id
    && role_value r.worker.role == "patch_reviewer"
    && r.worker.worker_id == d.reviewer_id

-- what `append` tests once the four references are found
unfoldable pub check_references :
    Option PublicationRecord
    → Option CatalogedArtifact
    → Option RunnerSessionRecord
    → Option WorkerResult
    → PublicationReviewDecision
    → Result PublicationReviewDecision
check_references (some p) (some a) (some s) (some r) d = elim (verified_head p) [
  | none ↦ err validation
  | some h ↦
      guard (not (matches_head p h d)) idempotency_conflict
        (guard (not (is_reviewer_result s r d)) idempotency_conflict (ok d))
]
check_references _ _ _ _ d = err validation

-- the stores the approvals read
pub record ApprovalSources : Type 0 where
  pub publications : Publications
  pub artifacts : Catalog
  pub runner_sessions : Sessions
  pub worker_results : Results

abbrev pub check_approval :
    ApprovalSources → PublicationReviewDecision → Result PublicationReviewDecision
check_approval w d =
    check_references (get d.publication_id w.publications)
      (get d.approval_artifact.digest.value w.artifacts) (get d.session_id w.runner_sessions)
      (get d.result_id w.worker_results) d

unfoldable pub append_approval :
    ApprovalSources → PublicationReviewDecision → Exec Approvals (PublicationReviewDecision × Bool)
append_approval w d s = elim (get d.approval_id s) [
  | some current ↦ (
    if decision_canonical current != decision_canonical d
        then err idempotency_conflict
        else ok (current, false),
    s,
  )
  | none ↦ elim (check_approval w d) [
    | err e ↦ (err e, s)
    | ok _ ↦ (ok (d, true), put d.approval_id d s)
  ]
]

unfoldable pub read_approvals : String → String → Exec Approvals (List PublicationReviewDecision)
read_approvals publication_id head_sha s =
    (ok (keep (λ d. d.publication_id == publication_id && d.head_sha == head_sha) (values s)), s)
