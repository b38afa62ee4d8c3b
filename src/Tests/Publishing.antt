-- ===== src/Tests/Publishing.antt =====
-- Tests of publications, approvals and effects.
use meta_loop.Memory.Effects.Exact.{IsApproved, request_effect-cases, TakesRef}
use meta_loop.Models.Runner.{RunnerSessionState-discrete, RunnerSessionState}
use meta_loop.Domain.Enums.{patch_reviewer, ready_to_publish}
use meta_loop.Memory.Effects.Refs.{HasOwnRefs, calls-HasOwnRefs, IsReceiptOfHead, reconcile-cases}
use meta_loop.Memory.Publications.Stages.{IsStaged}
use meta_loop.Memory.Publications.Invariant.{
  reserving, preparing, verifying, after_all-IsStaged, Follows, after-Follows,
}
use meta_loop.Base.Int.{pos}
use meta_loop.Models.Effect.{
  PublicationEffectIntent, PublicationReceipt, reconciled, PublicationEffectRecord,
}
use meta_loop.Memory.Effects.{EffectSources, request_effect, Effects, reconcile, effect_record}
use meta_loop.Memory.Approvals.Exact.{IsBacked, append_approval-IsBacked}
use meta_loop.Memory.Approvals.{ApprovalSources, append_approval, check_references, verified_head}
use meta_loop.Models.Review.{PublicationReviewDecision, approved}
use meta_loop.Memory.Publications.{
  References, Publications, reserved_record, verified_record, prepared_record,
}
use meta_loop.Models.Publication.{
  PublicationIntent, PreparedHead, VerificationResult, PublicationRecord, PublicationState-discrete,
  VerificationStatus-discrete, VerifierProfile, VerificationStatus, VerificationResultCode,
}
use meta_loop.Base.{
  String, List, Each, get, [], String-discrete, ◌∷◌, ◌≡◌, some, put, ◌⊎◌, none, string_eq, refl, ok,
  true, All, values,
}
use meta_loop.Memory.Publications.Invariant

abbrev pub head : String
head = "2222222222222222222222222222222222222222"

abbrev pub base : String
base = "1111111111111111111111111111111111111111"

abbrev pub intent : PublicationIntent
intent = record {
  publication_id = "P-1";
  task_id = "T-1";
  worker_result_id = "R-1";
  patch_digest = "d";
  repository_name = "owner/repo";
  base_sha = base;
  expected_task_version = pos 3;
  expected_sequence = pos 0;
  correlation_id = "T-1";
  governance_revision = "rev-7";
  schema_version = pos 1;
}

abbrev pub prepared_head : PreparedHead
prepared_head = record {
  publication_id = "P-1";
  patch_digest = "d";
  base_sha = base;
  tree_sha = base;
  head_sha = head;
  deterministic_ref = "refs/heads/p";
  schema_version = pos 1;
}

abbrev pub verification_result : VerificationResult
verification_result = record {
  publication_id = "P-1";
  head_sha = head;
  verifier_image_digest = "sha256:0";
  verifier_profile = VerifierProfile.default;
  status = VerificationStatus.succeeded;
  result_code = VerificationResultCode.passed;
  schema_version = pos 1;
}

abbrev no_references : References
no_references = record {
  tasks = [];
  events = record { histories = []; event_ids = [] };
  artifacts = [];
  worker_results = [];
  runner_sessions = [];
}

abbrev all_calls : List Invariant.Call
all_calls =
    reserving no_references intent
    ∷ preparing prepared_head (pos 0)
    ∷ verifying verification_result (pos 1)
    ∷ []

abbrev one_reserved : Publications
one_reserved = ("P-1", reserved_record intent) ∷ []

after_all-IsStaged_example : Each IsStaged (Invariant.after_all all_calls one_reserved)
after_all-IsStaged_example =
    after_all-IsStaged all_calls one_reserved ((refl, (refl, refl, refl)), tt)

is_reserved : get "P-1" one_reserved ≡ some (reserved_record intent)
unfolding get String-discrete
is_reserved = refl

after-Follows_example :
    (q : PublicationRecord) × (get "P-1"
        (Invariant.after (preparing prepared_head (pos 0)) one_reserved)
      ≡ some q)
    × Follows (reserved_record intent) q
after-Follows_example =
    after-Follows (preparing prepared_head (pos 0)) "P-1" (reserved_record intent) one_reserved
      is_reserved

abbrev pub decision : PublicationReviewDecision
decision = record {
  approval_id = "A-1";
  publication_id = "P-1";
  task_id = "T-1";
  session_id = "S-1";
  result_id = "R-2";
  approval_artifact = record {
    digest = record { value = "a" };
    logical_name = "approval";
    media_type = "text/plain";
    schema_version = pos 1;
  };
  patch_digest = "d";
  base_sha = base;
  tree_sha = base;
  head_sha = head;
  reviewer_id = "W-2";
  decision = approved;
  decided_at = 10;
  schema_version = pos 1;
}

abbrev verified_publication : PublicationRecord
verified_publication =
    verified_record (prepared_record (reserved_record intent) prepared_head) prepared_head
      verification_result

abbrev sources : ApprovalSources
sources = record {
  publications = ("P-1", verified_publication) ∷ [];
  artifacts =
      (
        "a",
        record {
          reference = decision.approval_artifact;
          classification = "internal";
          source_kind = "review";
          size_bytes = 3;
        },
      )
      ∷ [];
  runner_sessions =
      (
        "S-1",
        record {
          request = record {
            session_id = "S-1";
            task_id = "T-1";
            role = patch_reviewer;
            expected_task_version = pos 3;
            expected_sequence = pos 0;
            input_artifacts = [];
            timeout_seconds = pos 60;
            correlation_id = "T-1";
            schema_version = pos 1;
          };
          state = RunnerSessionState.succeeded;
          outcome = none;
        },
      )
      ∷ [];
  worker_results =
      (
        "R-2",
        record {
          result_id = "R-2";
          session_id = "S-1";
          task_id = "T-1";
          worker = record { worker_id = "W-2"; role = patch_reviewer };
          target = ready_to_publish;
          summary = "fine";
          expected_task_version = pos 3;
          expected_sequence = pos 0;
          schema_version = pos 1;
        },
      )
      ∷ [];
}

accepted : (append_approval sources decision []).0 ≡ ok (decision, true)
unfolding append_approval check_references verified_head get String-discrete
    PublicationState-discrete RunnerSessionState-discrete VerificationStatus-discrete
accepted = refl

append_approval-IsBacked_example :
    IsBacked sources decision
    × (decision ≡ decision)
    × ((append_approval sources decision []).1 ≡ put "A-1" decision [])
append_approval-IsBacked_example = append_approval-IsBacked sources decision decision [] accepted

abbrev effect_sources : EffectSources
effect_sources = record { publications = sources.publications; approvals = ("A-1", decision) ∷ [] }

abbrev effect_intent : PublicationEffectIntent
effect_intent = record {
  effect_id = "F-1";
  publication_id = "P-1";
  head_sha = head;
  deterministic_ref = "refs/heads/p";
  schema_version = pos 1;
}

abbrev pub receipt : PublicationReceipt
receipt = record {
  publication_id = "P-1";
  effect_id = "F-1";
  state = reconciled;
  pull_request = some (record {
    publication_id = "P-1";
    pull_request_number = pos 7;
    base_sha = base;
    tree_sha = base;
    head_sha = head;
    schema_version = pos 1;
  });
  schema_version = pos 1;
}

calls-HasOwnRefs_example :
    HasOwnRefs (request_effect effect_sources effect_intent []).1
    × HasOwnRefs (reconcile effect_sources receipt []).1
unfolding get
calls-HasOwnRefs_example =
    calls-HasOwnRefs effect_sources effect_intent receipt [] (λ k j r q f g p d. cc)

abbrev no_effects : Effects
no_effects = []

request_effect-cases_example :
    ((request_effect effect_sources effect_intent []).1 ≡ [])
    ⊎ ((get "F-1" no_effects ≡ none)
        × IsApproved effect_sources effect_intent
        × All (λ r. ¬ TakesRef effect_intent r) (values no_effects)
        × ((request_effect effect_sources effect_intent []).1
            ≡ put "F-1" (effect_record effect_intent none) []))
request_effect-cases_example = request_effect-cases effect_sources effect_intent []

abbrev one_effect : Effects
one_effect = ("F-1", effect_record effect_intent none) ∷ []

reconcile-cases_example :
    ((reconcile effect_sources receipt one_effect).1 ≡ one_effect)
    ⊎ ((o : PublicationEffectRecord) × (get "F-1" one_effect ≡ some o)
        × (o.receipt ≡ none)
        × (o.intent.publication_id ≡ "P-1")
        × IsReceiptOfHead effect_sources receipt
        × ((reconcile effect_sources receipt one_effect).1
            ≡ put "F-1" (effect_record o.intent (some receipt)) one_effect))
reconcile-cases_example = reconcile-cases effect_sources receipt one_effect
