-- ===== src/Memory/Approvals/Exact.antt =====
-- infrastructure/memory.py: what an accepted approval was checked against.
use meta_loop.Domain.Enums.{role_value}
use meta_loop.Models.Runner.{RunnerSessionRecord, WorkerResult, RunnerSessionState}
use meta_loop.Base.{
  ◌≡◌, ok, Option-cases, true, get, put, some, inl, inr, arith, string_eq, Result-cases,
}
use meta_loop.Models.Publication.{PublicationRecord, PreparedHead}
use meta_loop.Models.Review.{PublicationReviewDecision}
use meta_loop.Memory.Approvals.{
  ApprovalSources, check_references, append_approval, check_approval, Approvals, verified_head,
}

-- the stored publication, session and result that an approval is about
abbrev pub IsBacked : ApprovalSources → PublicationReviewDecision → Type 0
IsBacked w d =
    (r : PublicationRecord) × (h : PreparedHead) × (s : RunnerSessionRecord) × (q : WorkerResult)
    × (get d.publication_id w.publications ≡ some r)
    × (verified_head r ≡ some h)
    × (h.head_sha ≡ d.head_sha)
    × (h.tree_sha ≡ d.tree_sha)
    × (h.base_sha ≡ d.base_sha)
    × (r.intent.patch_digest ≡ d.patch_digest)
    × (r.intent.task_id ≡ d.task_id)
    × (get d.session_id w.runner_sessions ≡ some s)
    × (s.request.task_id ≡ d.task_id)
    × (role_value s.request.role ≡ "patch_reviewer")
    × (s.state ≡ RunnerSessionState.succeeded)
    × (get d.result_id w.worker_results ≡ some q)
    × (q.session_id ≡ d.session_id)
    × (q.task_id ≡ d.task_id)
    × (role_value q.worker.role ≡ "patch_reviewer")
    × (q.worker.worker_id ≡ d.reviewer_id)

check_approval-IsBacked :
    (w : ApprovalSources) (d a : PublicationReviewDecision)
    → check_approval w d ≡ ok a
    → IsBacked w d
unfolding check_references
check_approval-IsBacked w d a g = elim (Option-cases (get d.publication_id w.publications)) [
  | inl e ↦ ground (arith, e, g)
  | inr (r, e) ↦ elim (Option-cases (get d.approval_artifact.digest.value w.artifacts)) [
    | inl e' ↦ ground (arith, e, e', g)
    | inr (x, e') ↦ elim (Option-cases (get d.session_id w.runner_sessions)) [
      | inl e'' ↦ ground (arith, e, e', e'', g)
      | inr (s, e'') ↦ elim (Option-cases (get d.result_id w.worker_results)) [
        | inl e''' ↦ ground (arith, e, e', e'', e''', g)
        | inr (q, e''') ↦ elim (Option-cases (verified_head r)) [
          | inl n ↦ ground (arith, e, e', e'', e''', n, g)
          | inr (h, n) ↦ (
            r,
            h,
            s,
            q,
            e,
            n,
            ground arith,
            ground arith,
            ground arith,
            ground arith,
            ground arith,
            e'',
            ground arith,
            ground arith,
            ground arith,
            e''',
            ground arith,
            ground arith,
            ground arith,
            ground arith,
          )
        ]
      ]
    ]
  ]
]

-- Where a call returns an approval as a new one, this is the approval given, it is stored, and
-- the stores hold what it names: a verified publication whose head, tree, base, patch and task
-- are the approval's, and a succeeded patch reviewer session of that task with a result by the
-- approval's reviewer, in the role of a patch reviewer.
pub append_approval-IsBacked :
    (w : ApprovalSources) (d a : PublicationReviewDecision) (s : Approvals)
    → (append_approval w d s).0 ≡ ok (a, true)
    → IsBacked w d × (a ≡ d) × ((append_approval w d s).1 ≡ put d.approval_id d s)
unfolding append_approval
append_approval-IsBacked w d a s g = elim (Option-cases (get d.approval_id s)) [
  | inr (c, e) ↦ ground (arith, e, g)
  | inl e ↦ elim (Result-cases (check_approval w d)) [
    | inl (x, f) ↦ (check_approval-IsBacked w d x f, ground arith, ground arith)
    | inr (x, f) ↦ ground (arith, e, f, g)
  ]
]
