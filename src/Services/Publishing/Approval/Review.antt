-- ===== src/Services/Publishing/Approval/Review.antt =====
-- application/publication.py: the task and the review that an approval needs.
use meta_loop.Domain.Task.{Task}
use meta_loop.Domain.Enums.{patch_reviewer, ready_to_publish, r3}
use meta_loop.Memory.Publications.{result_source}
use meta_loop.Models.Queue.{CatalogedArtifact}
use meta_loop.Domain.Artifacts.{ArtifactRef, artifact_ref_eq}
use meta_loop.Models.Runner.{WorkerResult, RunnerSessionRecord, RunnerSessionState}
use meta_loop.Models.Publication.{PublicationIntent}
use meta_loop.Memory.UnitOfWork.{Store}
use meta_loop.Services.Publishing.Approval.{is_eligible, is_review, owned_reference}
use meta_loop.Base.{
  String, ◌≡◌, get, arith, some, Option-cases, inr, inl, true, string_eq, list_eq, nat_eq, Option,
  none, refl, elem, ◌≢◌,
}

-- what a worker's result must be to approve a publication: a patch reviewer's result on the
-- publication's own task, from a succeeded session of that role whose inputs hold the exact patch
pub record IsOwnReview (r : WorkerResult) (s : Store) (i : PublicationIntent) : Type 0 where
  pub session : RunnerSessionRecord
  pub patch : CatalogedArtifact
  pub recorded : get r.session_id s.runner_sessions ≡ some session
  pub catalogued : get i.patch_digest s.artifacts ≡ some patch
  pub task : r.task_id ≡ i.task_id
  pub role : r.worker.role ≡ patch_reviewer
  pub target : r.target ≡ ready_to_publish
  pub session_task : session.request.task_id ≡ i.task_id
  pub session_role : session.request.role ≡ patch_reviewer
  pub succeeded : session.state ≡ RunnerSessionState.succeeded
  pub own : r.session_id ≡ session.request.session_id
  pub input : elem patch.reference session.request.input_artifacts ≡ true

-- the task is still the one that the publication was prepared for
abbrev pub IsEligible : Option Task → PublicationIntent → Type 0
IsEligible o i =
    (t : Task) × (o ≡ some t)
    × (t.status ≡ ready_to_publish)
    × (t.risk.effective ≢ r3)
    × (t.repository.name ≡ i.repository_name)
    × (t.repository.revision ≡ i.base_sha)

pub is_eligible-IsEligible :
    (o : Option Task) (i : PublicationIntent) → is_eligible o i ≡ true → IsEligible o i
unfolding is_eligible
is_eligible-IsEligible none i h = cc
is_eligible-IsEligible (some t) i h =
    (t, refl, ground (arith, h), ground (arith, h), ground (arith, h), ground (arith, h))

pub is_review-IsOwnReview :
    (r : WorkerResult) (s : Store) (i : PublicationIntent)
    → is_review (some r) (get r.session_id s.runner_sessions) (get i.patch_digest s.artifacts) i
      ≡ true
    → IsOwnReview r s i
unfolding is_review
is_review-IsOwnReview r s i h = elim (Option-cases (get r.session_id s.runner_sessions)) [
  | inl a ↦ ground (arith, a, h)
  | inr (x, a) ↦ elim (Option-cases (get i.patch_digest s.artifacts)) [
    | inl b ↦ ground (arith, a, b, h)
    | inr (y, b) ↦ record {
      session = x;
      patch = y;
      recorded = a;
      catalogued = b;
      task = ground (arith, a, b, h);
      role = ground (arith, a, b, h);
      target = ground (arith, a, b, h);
      session_task = ground (arith, a, b, h);
      session_role = ground (arith, a, b, h);
      succeeded = ground (arith, a, b, h);
      own = ground (arith, a, b, h);
      input = ground (arith, a, b, h);
    }
  ]
]

pub owned_reference-own :
    (o : Option CatalogedArtifact) (result_id : String) (ref : ArtifactRef)
    → owned_reference o result_id ≡ some ref
    → (a : CatalogedArtifact) × (o ≡ some a)
      × (a.source_kind ≡ result_source result_id)
      × (ref ≡ a.reference)
unfolding owned_reference
owned_reference-own none result_id ref h = cc
owned_reference-own (some a) result_id ref h = (a, refl, ground (arith, h), ground (arith, h))
