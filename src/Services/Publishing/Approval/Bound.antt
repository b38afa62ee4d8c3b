-- ===== src/Services/Publishing/Approval/Bound.antt =====
-- application/publication.py: what an approval is bound to.
use meta_loop.Services.Publishing.Approval.Review.{
  IsEligible, owned_reference-own, IsOwnReview, is_eligible-IsEligible, is_review-IsOwnReview,
}
use meta_loop.Memory.Publications.{result_source}
use meta_loop.Models.Queue.{CatalogedArtifact}
use mathlib.Core.Path.{subst}
use meta_loop.Domain.Artifacts.{ArtifactRef, artifact_ref_eq}
use meta_loop.Services.Publishing.{passed_head, approval_sources_of, on_approvals}
use meta_loop.Models.Runner.{WorkerResult}
use meta_loop.Models.Publication.{PublicationRecord, PreparedHead}
use meta_loop.Base.Clock.{Time}
use meta_loop.Memory.UnitOfWork.{Store}
use meta_loop.Services.Publishing.Approval.{
  approve, is_eligible, is_review, owned_reference, decision_of,
}
use meta_loop.Models.Review.{
  check_decision, PublicationReviewDecision, decision_canonical, approved,
}
use meta_loop.Memory.Approvals.{append_approval, ApprovalSources, Approvals, check_approval}
use meta_loop.Base.{
  String, ◌≡◌, Bool, ok, get, arith, false, some, Option-cases, Bool-cases, inr, inl, true, ◌==◌,
  Result-cases, string_eq, get-put_self, list_eq, nat_eq, ap, ◌∙◌, sym,
}

-- the decision is the approval of exactly this head, by exactly this reviewer, whose result, session
-- and artifact it names
pub record IsBound (id approval_id result_id digest : String) (s : Store)
    (d : PublicationReviewDecision) : Type 0 where
  pub publication : PublicationRecord
  pub head : PreparedHead
  pub result : WorkerResult
  pub artifact : CatalogedArtifact
  pub live : s.fuse.engaged ≡ false
  pub passed : passed_head (get id s.publications) ≡ some (publication, head)
  pub task : IsEligible (get publication.intent.task_id s.tasks) publication.intent
  pub reviewed : get result_id s.worker_results ≡ some result
  pub review : IsOwnReview result s publication.intent
  pub registered : get digest s.artifacts ≡ some artifact
  pub owner : artifact.source_kind ≡ result_source result_id
  pub named : d.approval_id ≡ approval_id
  pub about : d.publication_id ≡ id
  pub task_named : d.task_id ≡ publication.intent.task_id
  pub session_named : d.session_id ≡ result.session_id
  pub result_named : d.result_id ≡ result.result_id
  pub artifact_named : d.approval_artifact ≡ artifact.reference
  pub patch : d.patch_digest ≡ publication.intent.patch_digest
  pub base : d.base_sha ≡ head.base_sha
  pub tree : d.tree_sha ≡ head.tree_sha
  pub commit : d.head_sha ≡ head.head_sha
  pub reviewer : d.reviewer_id ≡ result.worker.worker_id
  pub verdict : d.decision ≡ approved

append_approval_ok :
    (w : ApprovalSources) (d a : PublicationReviewDecision) (s : Approvals) (b : Bool)
    → (append_approval w d s).0 ≡ ok (a, b)
    → (get d.approval_id (append_approval w d s).1 ≡ some a)
      × (decision_canonical a ≡ decision_canonical d)
unfolding append_approval
append_approval_ok w d a s b h = elim (Option-cases (get d.approval_id s)) [
  | inr (c, e) ↦ elim (Bool-cases (decision_canonical c == decision_canonical d)) [
    | inr f ↦ ground (arith, e, f, h)
    | inl f ↦ (ground (arith, e, f, h), ground (arith, e, f, h))
  ]
  | inl e ↦ elim (Result-cases (check_approval w d)) [
    | inr (y, f) ↦ ground (arith, e, f, h)
    | inl (y, f) ↦
        (ground (arith, e, f, h, get-put_self d.approval_id d s), ground (arith, e, f, h))
  ]
]

check_decision-eq : (d r : PublicationReviewDecision) → check_decision d ≡ ok r → d ≡ r
unfolding check_decision
check_decision-eq d r h = ground (arith, h)

on_approvals_ok :
    (d a : PublicationReviewDecision) (s : Store) (b : Bool)
    → (on_approvals (λ w. append_approval w d) s).0 ≡ ok (a, b)
    → (get d.approval_id (on_approvals (λ w. append_approval w d) s).1.approvals ≡ some a)
      × (decision_canonical a ≡ decision_canonical d)
on_approvals_ok d a s b h = append_approval_ok (approval_sources_of s) d a s.approvals b h

decision_of-IsBound :
    (id approval_id result_id digest : String) (at : Time) (s : Store) (p : PublicationRecord)
    (h : PreparedHead) (r : WorkerResult) (ref : ArtifactRef) (d : PublicationReviewDecision)
    → s.fuse.engaged ≡ false
    → passed_head (get id s.publications) ≡ some (p, h)
    → is_eligible (get p.intent.task_id s.tasks) p.intent ≡ true
    → get result_id s.worker_results ≡ some r
    → is_review
        (some r)
        (get r.session_id s.runner_sessions)
        (get p.intent.patch_digest s.artifacts)
        p.intent
      ≡ true
    → owned_reference (get digest s.artifacts) result_id ≡ some ref
    → decision_of id approval_id at p h r ref ≡ d
    → IsBound id approval_id result_id digest s d
decision_of-IsBound id approval_id result_id digest at s p h r ref d f c g k l m q =
    let (x, u, v, w) = owned_reference-own (get digest s.artifacts) result_id ref m in
    record {
      publication = p;
      head = h;
      result = r;
      artifact = x;
      live = f;
      passed = c;
      task = is_eligible-IsEligible (get p.intent.task_id s.tasks) p.intent g;
      reviewed = k;
      review = is_review-IsOwnReview r s p.intent l;
      registered = u;
      owner = v;
      named = ap (λ z. z.approval_id) (sym q);
      about = ap (λ z. z.publication_id) (sym q);
      task_named = ap (λ z. z.task_id) (sym q);
      session_named = ap (λ z. z.session_id) (sym q);
      result_named = ap (λ z. z.result_id) (sym q);
      artifact_named = ap (λ z. z.approval_artifact) (sym q) ∙ w;
      patch = ap (λ z. z.patch_digest) (sym q);
      base = ap (λ z. z.base_sha) (sym q);
      tree = ap (λ z. z.tree_sha) (sym q);
      commit = ap (λ z. z.head_sha) (sym q);
      reviewer = ap (λ z. z.reviewer_id) (sym q);
      verdict = ap (λ z. z.decision) (sym q);
    }

-- An approval that the service returns stands in the store, and its text is that of a decision which
-- is bound to the stored publication's verified head and to the reviewer's own result: it names that
-- result, its session and task and an artifact that the result owns, and the result is a patch
-- reviewer's, on this task, from a succeeded session of that role which had the exact patch. The fuse
-- is open, and the task is still ready to be published, below R3 and on the intent's base.
pub approve_lem :
    (id approval_id result_id digest : String) (at : Time) (s : Store)
    (a : PublicationReviewDecision) (b : Bool)
    → (approve id approval_id result_id digest at s).0 ≡ ok (a, b)
    → (d : PublicationReviewDecision) × IsBound id approval_id result_id digest s d
      × (decision_canonical a ≡ decision_canonical d)
      × (get approval_id (approve id approval_id result_id digest at s).1.approvals ≡ some a)
unfolding approve
approve_lem id approval_id result_id digest at s a b e = elim (Bool-cases s.fuse.engaged) [
  | inl f ↦ ground (arith, f, e)
  | inr f ↦ elim (Option-cases (passed_head (get id s.publications))) [
    | inl c ↦ ground (arith, f, c, e)
    | inr ((p, h), c) ↦ elim (Bool-cases (is_eligible (get p.intent.task_id s.tasks) p.intent)) [
      | inr g ↦ ground (arith, f, c, g, e)
      | inl g ↦ elim (Option-cases (get result_id s.worker_results)) [
        | inl k ↦ ground (arith, f, c, g, k, e)
        | inr (r, k) ↦
            elim (Bool-cases (
              is_review (some r) (get r.session_id s.runner_sessions)
                (get p.intent.patch_digest s.artifacts) p.intent)) [
                  | inr l ↦ ground (arith, f, c, g, k, l, e)
                  | inl l ↦
                      elim (Option-cases (owned_reference (get digest s.artifacts) result_id)) [
                        | inl m ↦ ground (arith, f, c, g, k, l, m, e)
                        | inr (ref, m) ↦
                            elim (Result-cases
                              (check_decision (decision_of id approval_id at p h r ref))) [
                                | inr (y, n) ↦ ground (arith, f, c, g, k, l, m, n, e)
                                | inl (d, n) ↦
                                    let q : decision_of id approval_id at p h r ref ≡ d =
                                      check_decision-eq (decision_of id approval_id at p h r ref) d
                                        n in
                                    let x : approve id approval_id result_id digest at s
                                        ≡ on_approvals (λ w. append_approval w d) s =
                                      ground (arith, f, c, g, k, l, m, n) in
                                    let w = on_approvals_ok d a s b (ap (λ z. z.0) (sym x) ∙ e) in
                                    (
                                      d,
                                      decision_of-IsBound id approval_id result_id digest at s p h r
                                          ref d f c g k l m q,
                                      w.1,
                                      subst
                                          (λ z.
                                            get z
                                              (approve id approval_id result_id digest at
                                                s).1.approvals
                                            ≡ some a)
                                          (ap (λ z. z.approval_id) (sym q))
                                          (ap (λ z. get d.approval_id z.1.approvals) x ∙ w.0),
                                    )
                              ]
                      ]
                ]
      ]
    ]
  ]
]
