-- ===== src/Models/Review.antt =====
-- application/models.py: a reviewer's decision on a publication.
use meta_loop.Base.Clock.{Time, isoformat}
use meta_loop.Domain.Artifacts.{ArtifactRef}
use meta_loop.Models.Identity.{phase8_canonical, is_phase8_identifier, is_phase8_sha}
use meta_loop.Base.Json.{Json, obj, field, num, str, text, end}
use meta_loop.Base.{Eq, String, Result, guard, List, not, ℕ, ◌&&◌, validation, ◌!=◌, ok}
use meta_loop.Base.Int.{ℤ, pos, int_eq}

pub data ReviewDecision : Type 0 where
  approved rejected : ReviewDecision

unfoldable pub ReviewDecision-discrete : Discrete ReviewDecision
ReviewDecision-discrete = hlevel

instance abbrev pub review_decision_eq : Eq ReviewDecision
review_decision_eq = record { dec = ReviewDecision-discrete }

abbrev pub decision_value : ReviewDecision → String
decision_value approved = "approved"
decision_value rejected = "rejected"

pub record PublicationReviewDecision : Type 0 where
  pub approval_id : String
  pub publication_id : String
  pub task_id : String
  pub session_id : String
  pub result_id : String
  pub approval_artifact : ArtifactRef
  pub patch_digest : String
  pub base_sha : String
  pub tree_sha : String
  pub head_sha : String
  pub reviewer_id : String
  pub decision : ReviewDecision
  pub decided_at : Time
  pub schema_version : ℤ

-- `PublicationReviewDecision.__post_init__`
unfoldable pub check_decision : PublicationReviewDecision → Result PublicationReviewDecision
check_decision d =
    guard
      (not (
        is_phase8_identifier d.approval_id
        && is_phase8_identifier d.publication_id
        && is_phase8_identifier d.task_id
        && is_phase8_identifier d.session_id
        && is_phase8_identifier d.result_id
        && is_phase8_identifier d.reviewer_id))
      validation
      (guard
        (not (
          is_phase8_sha d.patch_digest 64
          && is_phase8_sha d.base_sha 40
          && is_phase8_sha d.tree_sha 40
          && is_phase8_sha d.head_sha 40))
        validation (guard (d.schema_version != pos 1) validation (ok d)))

unfoldable pub decision_to_dict : PublicationReviewDecision → Json
decision_to_dict d = obj (
    field "schema_version" (num (pos 1)) (
      field "approval_id" (str d.approval_id) (
        field "publication_id" (str d.publication_id) (
          field "task_id" (str d.task_id) (
            field "session_id" (str d.session_id) (
              field "result_id" (str d.result_id) (
                field "approval_artifact_digest" (str d.approval_artifact.digest.value) (
                  field "patch_digest" (str d.patch_digest) (
                    field "base_sha" (str d.base_sha) (
                      field "tree_sha" (str d.tree_sha) (
                        field "head_sha" (str d.head_sha) (
                          field "reviewer_id" (str d.reviewer_id) (
                            field "decision" (str (decision_value d.decision))
                              (field "decided_at" (text (isoformat d.decided_at)) end))))))))))))))

unfoldable pub decision_canonical : PublicationReviewDecision → List ℕ
unfolding phase8_canonical decision_to_dict
decision_canonical d = phase8_canonical (decision_to_dict d)
