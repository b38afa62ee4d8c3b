-- ===== src/Tests/Gates.antt =====
-- Tests of the gates of publication.
use meta_loop.Memory.Events.{history}
use meta_loop.Memory.Observations.{append_observation, is_of_publication, ObservationKey-discrete}
use meta_loop.Models.Identity.{
  is_phase8_identifier, is_phase8_sha, phase8_ref_is_known, phase8_publication_ref,
}
use meta_loop.Memory.Approvals.{append_approval, check_references, verified_head}
use meta_loop.Services.Ports.{asks}
use meta_loop.Services.Publishing.Gate.Verdict.{Accepts, check_lem}
use meta_loop.Services.Publishing.Remote.Resume.{publish_resumes}
use meta_loop.Services.Publishing.Remote.Idempotent.{publish_repeat}
use meta_loop.Services.Publishing.Approval.Bound.{IsBound, approve_lem}
use meta_loop.Services.Publishing.{passed_head, in_block}
use meta_loop.Services.Publishing.Gate.{
  CheckSource, check, gate_result, validated_state, exact_effect, is_settled, collect,
  is_observation_of, newer, all_passed, is_success, store_checks, store_all,
}
use meta_loop.Models.Checks.{
  CheckRunObservation, CheckGateResult, CheckRunConclusion, success, CheckRunStatus, failure,
  check_gate_result, observation_canonical, CheckRunStatus-discrete, CheckRunConclusion-discrete,
}
use meta_loop.Base.Clock.{Time}
use meta_loop.Memory.Effects.{
  effect_record, request_effect, is_exact_head, is_approval_of, has_same_ref, get_effect, reconcile,
  effect_of, is_exact_receipt, settle,
}
use meta_loop.Models.Effect.{
  PublicationEffectIntent, PublicationEffectRecord, check_effect_intent, check_effect_record,
  effect_intent_canonical, PublicationEffectState-discrete,
}
use meta_loop.Services.Publishing.Remote.{
  publish, validate_receipt, Publisher, open_effect, finish, calling, check_found, request_open,
  opened, is_exact_approval, is_pull_request_of, close_effect, undrifted, close_known,
}
use meta_loop.Services.Publishing.Remote.Opening.{OwnIds}
use meta_loop.Services.Publishing.Approval.{approve, is_eligible, is_review, owned_reference}
use meta_loop.Models.Review.{
  PublicationReviewDecision, decision_canonical, check_decision, ReviewDecision-discrete,
}
use meta_loop.Memory.Publications.{
  verified_record, prepared_record, reserved_record, reserve, record_prepared, put_checked,
  are_references, is_current,
}
use meta_loop.Services.Publishing.Preparation.Prepared.{IsReady, prepare_lem}
use meta_loop.Models.Queue.{CatalogedArtifact}
use meta_loop.Models.Runner.{
  RunnerSessionRecord, WorkerResult, RunnerSessionState, RunnerSessionState-discrete,
}
use meta_loop.Tests.Data.{at_design, open_gate}
use meta_loop.Base.Int.{pos, ℤ-discrete, ◌+ℤ◌}
use meta_loop.Tests.Publishing.{
  intent, prepared_head, base, decision, head, receipt, verification_result,
}
use meta_loop.Services.Publishing.Preparation.{
  Tools, prepare, check_preconditions, check_task, check_inputs, is_candidate_of,
  is_implementer_result, is_task_patch, authorize_preparation, keep_head,
}
use meta_loop.Memory.UnitOfWork.{Store, empty_store}
use meta_loop.Domain.Enums.{
  Role, ready_to_publish, implementer, patch_reviewer, TaskStatus-discrete, RiskClass-discrete,
  Role-discrete,
}
use meta_loop.Domain.Task.{Task}
use meta_loop.Domain.Artifacts.{ArtifactRef, ArtifactRef-discrete}
use meta_loop.Models.Publication.{
  PublicationIntent, PreparedHead, PublicationRecord, check_record, PreparedHead-discrete,
  PublicationState-discrete, VerificationStatus-discrete, VerificationResultCode-discrete,
}
use meta_loop.Base.{
  ◌∷◌, [], some, none, ok, err, refl, ◌≡◌, String, List, get, ℕ, other_error, true, string_eq, ◌↔◌,
  String-discrete, Option-discrete, ℕ_discrete, put, List-discrete,
}

abbrev pub digest : String
digest = "3333333333333333333333333333333333333333333333333333333333333333"

abbrev pub ref : String
ref = "refs/heads/meta-loop/P-1"

abbrev pub ready_intent : PublicationIntent
ready_intent = record intent { patch_digest = digest }

abbrev pub ready_head : PreparedHead
ready_head = record prepared_head { patch_digest = digest; deterministic_ref = ref }

abbrev patch_ref : ArtifactRef
patch_ref = record {
  digest = record { value = digest };
  logical_name = "patch";
  media_type = "text/x-diff";
  schema_version = pos 1;
}

abbrev approval_ref : ArtifactRef
approval_ref = record {
  digest = record { value = "a" };
  logical_name = "approval";
  media_type = "text/plain";
  schema_version = pos 1;
}

abbrev ready_task : Task
ready_task = record at_design {
  repository = record { name = "owner/repo"; revision = base };
  status = ready_to_publish;
  artifacts = patch_ref ∷ [];
}

abbrev session_by : String → Role → RunnerSessionRecord
session_by id role = record {
  request = record {
    session_id = id;
    task_id = "T-1";
    role = role;
    expected_task_version = pos 3;
    expected_sequence = pos 0;
    input_artifacts = patch_ref ∷ [];
    timeout_seconds = pos 60;
    correlation_id = "T-1";
    schema_version = pos 1;
  };
  state = RunnerSessionState.succeeded;
  outcome = none;
}

abbrev result_by : String → String → Role → WorkerResult
result_by id session_id role = record {
  result_id = id;
  session_id = session_id;
  task_id = "T-1";
  worker = record { worker_id = "W-2"; role = role };
  target = ready_to_publish;
  summary = "fine";
  expected_task_version = pos 3;
  expected_sequence = pos 0;
  schema_version = pos 1;
}

abbrev catalogued : ArtifactRef → String → CatalogedArtifact
catalogued reference source = record {
  reference = reference;
  classification = "internal";
  source_kind = source;
  size_bytes = 3;
}

abbrev ready_store : Store
ready_store = record empty_store {
  tasks = ("T-1", ready_task) ∷ [];
  artifacts =
      (digest, catalogued patch_ref "worker_result:R-1")
      ∷ ("a", catalogued approval_ref "worker_result:R-2")
      ∷ [];
  runner_sessions =
      ("S-1", session_by "S-1" implementer) ∷ ("S-2", session_by "S-2" patch_reviewer) ∷ [];
  worker_results =
      ("R-1", result_by "R-1" "S-1" implementer)
      ∷ ("R-2", result_by "R-2" "S-2" patch_reviewer)
      ∷ [];
}

abbrev tools : Tools
tools = record { read = λ _. ok (1 ∷ []); sha256 = λ _. digest; prepare = λ _ _. ok ready_head }

prepares : (prepare tools open_gate ready_intent ready_store).0 ≡ ok ready_head
unfolding prepare check_preconditions check_task check_inputs is_implementer_result is_task_patch
    authorize_preparation asks is_candidate_of keep_head reserve record_prepared put_checked
    are_references check_record get String-discrete ℤ-discrete Option-discrete TaskStatus-discrete
    RiskClass-discrete Role-discrete RunnerSessionState-discrete ArtifactRef-discrete
    PreparedHead-discrete PublicationState-discrete ◌+ℤ◌ history is_current put
prepares = refl

prepare_lem_example :
    ((t : Task) × IsReady open_gate ready_intent ready_store t)
    × ((patch : List ℕ) × (tools.read digest ≡ ok patch)
        × (tools.sha256 patch ≡ digest)
        × (tools.prepare ready_intent patch ≡ ok ready_head))
    × (is_candidate_of ready_head ready_intent ≡ true)
    × ((q : PublicationRecord) × (get "P-1"
            (prepare tools open_gate ready_intent ready_store).1.publications
          ≡ some q)
        × (q.prepared_head ≡ some ready_head))
prepare_lem_example = prepare_lem tools open_gate ready_intent ready_store ready_head prepares

abbrev verified_store : Store
verified_store = record ready_store {
  publications =
      (
        "P-1",
        verified_record (prepared_record (reserved_record ready_intent) ready_head) ready_head
            verification_result,
      )
      ∷ [];
}

abbrev review : PublicationReviewDecision
review = record decision {
  patch_digest = digest;
  session_id = "S-2";
  approval_artifact = approval_ref;
}

approves : (approve "P-1" "A-1" "R-2" "a" 10 verified_store).0 ≡ ok (review, true)
unfolding approve passed_head is_eligible is_review owned_reference check_decision append_approval
    check_references verified_head is_phase8_identifier is_phase8_sha get String-discrete ℤ-discrete
    Option-discrete TaskStatus-discrete RiskClass-discrete Role-discrete RunnerSessionState-discrete
    ArtifactRef-discrete PublicationState-discrete VerificationStatus-discrete
    VerificationResultCode-discrete
approves = refl

approve_lem_example :
    (d : PublicationReviewDecision) × IsBound "P-1" "A-1" "R-2" "a" verified_store d
    × (decision_canonical review ≡ decision_canonical d)
    × (get "A-1" (approve "P-1" "A-1" "R-2" "a" 10 verified_store).1.approvals ≡ some review)
approve_lem_example = approve_lem "P-1" "A-1" "R-2" "a" 10 verified_store review true approves

abbrev approved_store : Store
approved_store = record verified_store { approvals = ("A-1", review) ∷ [] }

-- a remote side that works, and one that does not
abbrev working : Publisher
working = λ _ _ _. ok receipt

abbrev broken : Publisher
broken = λ _ _ _. err other_error

no_effect : OwnIds approved_store.effects
unfolding get
no_effect k r g = cc

publishes : (publish working "P-1" "F-1" approved_store).0 ≡ ok receipt
unfolding publish open_effect in_block finish check_found request_open opened is_exact_approval
    passed_head is_eligible check_effect_intent is_phase8_identifier is_phase8_sha
    phase8_ref_is_known phase8_publication_ref request_effect is_exact_head is_approval_of
    has_same_ref validate_receipt is_pull_request_of close_effect get_effect undrifted close_known
    reconcile effect_of is_exact_receipt settle check_effect_record effect_intent_canonical get
    String-discrete ℤ-discrete Option-discrete TaskStatus-discrete RiskClass-discrete
    PublicationState-discrete VerificationStatus-discrete VerificationResultCode-discrete
    ReviewDecision-discrete PublicationEffectState-discrete put List-discrete
publishes = refl

publish_repeat_example :
    let s' = (publish working "P-1" "F-1" approved_store).1 in
    ((r : PublicationEffectRecord) × (get "F-1" s'.effects ≡ some r) × (r.receipt ≡ some receipt))
    × (publish broken "P-1" "F-1" s' ≡ (ok receipt, s'))
publish_repeat_example =
    publish_repeat working broken "P-1" "F-1" approved_store receipt no_effect publishes

abbrev pub effect_intent : PublicationEffectIntent
effect_intent = record {
  effect_id = "F-1";
  publication_id = "P-1";
  head_sha = head;
  deterministic_ref = ref;
  schema_version = pos 1;
}

opens :
    (in_block (open_effect "P-1" "F-1") approved_store).0
    ≡ ok (calling ready_intent ready_head effect_intent)
unfolding in_block check_found request_open opened is_exact_approval passed_head is_eligible
    check_effect_intent is_phase8_identifier is_phase8_sha phase8_ref_is_known
    phase8_publication_ref request_effect is_exact_head is_approval_of has_same_ref open_effect
    effect_intent_canonical get String-discrete ℤ-discrete Option-discrete TaskStatus-discrete
    RiskClass-discrete PublicationState-discrete VerificationStatus-discrete
    VerificationResultCode-discrete ReviewDecision-discrete
opens = refl

valid : validate_receipt receipt ready_head effect_intent ≡ ok tt
unfolding validate_receipt is_pull_request_of String-discrete PublicationEffectState-discrete
valid = refl

publish_resumes_example :
    let s' = (in_block (open_effect "P-1" "F-1") approved_store).1 in
    (publish broken "P-1" "F-1" approved_store ≡ (err other_error, s'))
    × ((r : PublicationEffectRecord) × (get "F-1" s'.effects ≡ some r) × (r.intent ≡ effect_intent))
    × ((publish working "P-1" "F-1" s').0 ≡ ok receipt)
    × ((r : PublicationEffectRecord) × (get "F-1" (publish working "P-1" "F-1" s').1.effects
          ≡ some r)
        × (r.receipt ≡ some receipt))
publish_resumes_example =
    publish_resumes broken working "P-1" "F-1" approved_store ready_intent ready_head effect_intent
      other_error receipt no_effect opens refl refl refl refl valid

abbrev published_store : Store
published_store = record approved_store {
  effects = ("F-1", effect_record effect_intent (some receipt)) ∷ [];
}

abbrev check_at : Time → CheckRunConclusion → CheckRunObservation
check_at t c = record {
  publication_id = "P-1";
  head_sha = head;
  check_name = "ci";
  status = CheckRunStatus.completed;
  conclusion = some c;
  observed_at = t;
  schema_version = pos 1;
}

-- the check has failed and then succeeded
abbrev observations : List CheckRunObservation
observations = check_at 20 success ∷ check_at 10 failure ∷ []

abbrev checks : CheckSource
checks = λ _ _ _. ok observations

abbrev verdict : CheckGateResult
verdict = gate_result "P-1" head ("ci" ∷ []) true

checked : (check checks ("ci" ∷ []) "P-1" "F-1" published_store).0 ≡ ok verdict
unfolding check in_block validated_state passed_head exact_effect is_settled collect
    is_observation_of newer all_passed is_success store_checks store_all append_observation
    is_of_publication check_gate_result is_phase8_identifier is_phase8_sha effect_intent_canonical
    observation_canonical get ObservationKey-discrete CheckRunStatus-discrete
    CheckRunConclusion-discrete String-discrete ℤ-discrete Option-discrete PublicationState-discrete
    VerificationStatus-discrete VerificationResultCode-discrete ℕ_discrete
    PublicationEffectState-discrete put List-discrete
checked = refl

check_lem_example :
    (p : PublicationRecord) × (h : PreparedHead) × (xs : List CheckRunObservation) × (passed_head
        (get "P-1" published_store.publications)
      ≡ some (p, h))
    × (checks "P-1" p.intent.repository_name h.head_sha ≡ ok xs)
    × (verdict.head_sha ≡ h.head_sha)
    × (verdict.required_checks ≡ "ci" ∷ [])
    × ((true ≡ true) ↔ Accepts ("ci" ∷ []) xs)
check_lem_example = check_lem checks ("ci" ∷ []) "P-1" "F-1" published_store verdict checked
