-- ===== src/Models/Publication.antt =====
-- application/models.py: publication intents, prepared heads, verifications and records.
use meta_loop.Base.Json.{obj, field, num, str, end}
use meta_loop.Models.Identity.{
  phase8_canonical, is_phase8_identifier, is_phase8_sha, phase8_ref_is_known,
}
use meta_loop.Base.{
  Eq, String, List, Result, String-discrete, Option, ℕ, Bool, guard, ◌∷◌, false, leb, not, some,
  true, if◌then◌else◌, has_dots, len, none, length, ◌==◌, string_eq, [], ◌&&◌, validation, nat_eq,
  all, codes, ok, is_alnum, ◌||◌, is_hex, ◌!=◌, bool_eq, drop_prefix,
}
use meta_loop.Base.Int.{ℤ, ℤ-discrete, ltb_ℤ, pos, int_eq}

pub data PublicationState : Type 0 where
  reserved prepared verified publish_requested published : PublicationState

pub data VerificationStatus : Type 0 where
  succeeded failed : VerificationStatus

pub data VerifierProfile : Type 0 where
  default : VerifierProfile

pub data VerificationResultCode : Type 0 where
  passed failed timeout blocked : VerificationResultCode

unfoldable pub PublicationState-discrete : Discrete PublicationState
PublicationState-discrete = hlevel

unfoldable pub VerificationStatus-discrete : Discrete VerificationStatus
VerificationStatus-discrete = hlevel

unfoldable pub VerificationResultCode-discrete : Discrete VerificationResultCode
VerificationResultCode-discrete = hlevel

instance abbrev pub publication_state_eq : Eq PublicationState
publication_state_eq = record { dec = PublicationState-discrete }

instance abbrev pub verification_status_eq : Eq VerificationStatus
verification_status_eq = record { dec = VerificationStatus-discrete }

instance abbrev pub result_code_eq : Eq VerificationResultCode
result_code_eq = record { dec = VerificationResultCode-discrete }

pub record PublicationIntent : Type 0 where
  pub publication_id : String
  pub task_id : String
  pub worker_result_id : String
  pub patch_digest : String
  pub repository_name : String
  pub base_sha : String
  pub expected_task_version : ℤ
  pub expected_sequence : ℤ
  pub correlation_id : String
  pub governance_revision : String
  pub schema_version : ℤ

push_char : ℕ → List (List ℕ) → List (List ℕ)
push_char c [] = (c ∷ []) ∷ []
push_char c (p ∷ ps) = (c ∷ p) ∷ ps

-- `s.split("/")`
unfoldable pub split_slash : List ℕ → List (List ℕ)
unfolding push_char
split_slash [] = [] ∷ []
split_slash (c ∷ s) = let rest = split_slash s in if c == b'/' then [] ∷ rest else push_char c rest

is_repository_part : List ℕ → Bool
is_repository_part [] = false
is_repository_part (c ∷ s) =
    not (has_dots (c ∷ s)) && all (λ d. is_alnum d || d == b'.' || d == b'_' || d == b'-') (c ∷ s)

unfoldable pub is_repository_name : String → Bool
unfolding split_slash is_repository_part
is_repository_name name =
    leb (len name) 128
    && length (split_slash (codes name)) == 2
    && all is_repository_part (split_slash (codes name))

-- `PublicationIntent.__post_init__`
unfoldable pub check_intent : PublicationIntent → Result PublicationIntent
check_intent i =
    guard
      (not (
        is_phase8_identifier i.publication_id
        && is_phase8_identifier i.task_id
        && is_phase8_identifier i.worker_result_id
        && is_phase8_identifier i.correlation_id
        && is_phase8_identifier i.governance_revision))
      validation
      (guard (not (is_repository_name i.repository_name)) validation (
        guard (not (is_phase8_sha i.patch_digest 64 && is_phase8_sha i.base_sha 40)) validation (
          guard
            (ltb_ℤ i.expected_task_version (pos 0)
              || ltb_ℤ i.expected_sequence (pos 0)
              || i.schema_version != pos 1)
            validation (ok i))))

unfoldable pub intent_canonical : PublicationIntent → List ℕ
unfolding phase8_canonical
intent_canonical i = phase8_canonical (
    obj (
      field "schema_version" (num (pos 1)) (
        field "publication_id" (str i.publication_id) (
          field "task_id" (str i.task_id) (
            field "worker_result_id" (str i.worker_result_id) (
              field "patch_digest" (str i.patch_digest) (
                field "repository_name" (str i.repository_name) (
                  field "base_sha" (str i.base_sha) (
                    field "expected_task_version" (num i.expected_task_version) (
                      field "expected_sequence" (num i.expected_sequence) (
                        field "correlation_id" (str i.correlation_id)
                          (field "governance_revision" (str i.governance_revision) end))))))))))))

pub record PreparedHead : Type 0 where
  pub publication_id : String
  pub patch_digest : String
  pub base_sha : String
  pub tree_sha : String
  pub head_sha : String
  pub deterministic_ref : String
  pub schema_version : ℤ

unfoldable pub PreparedHead-discrete : Discrete PreparedHead
unfolding String-discrete ℤ-discrete
PreparedHead-discrete = hlevel (String-discrete, ℤ-discrete)

instance abbrev pub prepared_head_eq : Eq PreparedHead
prepared_head_eq = record { dec = PreparedHead-discrete }

-- `PreparedHead.__post_init__`
unfoldable pub check_prepared : PreparedHead → Result PreparedHead
check_prepared p =
    guard
      (not (
        is_phase8_identifier p.publication_id
        && is_phase8_sha p.patch_digest 64
        && is_phase8_sha p.base_sha 40
        && is_phase8_sha p.tree_sha 40
        && is_phase8_sha p.head_sha 40))
      validation
      (guard
        (not (phase8_ref_is_known p.publication_id p.deterministic_ref)
          || p.schema_version != pos 1)
        validation (ok p))

pub record VerificationResult : Type 0 where
  pub publication_id : String
  pub head_sha : String
  pub verifier_image_digest : String
  pub verifier_profile : VerifierProfile
  pub status : VerificationStatus
  pub result_code : VerificationResultCode
  pub schema_version : ℤ

unfoldable pub is_image_digest : Option (List ℕ) → Bool
is_image_digest none = false
is_image_digest (some s) = length s == 64 && all is_hex s

-- `VerificationResult.__post_init__`
unfoldable pub check_verification : VerificationResult → Result VerificationResult
unfolding is_image_digest
check_verification v =
    guard (not (is_phase8_identifier v.publication_id && is_phase8_sha v.head_sha 40)) validation (
      guard (not (is_image_digest (drop_prefix (codes "sha256:") (codes v.verifier_image_digest))))
        validation
        (guard (v.schema_version != pos 1) validation (
          guard
            ((v.status == VerificationStatus.succeeded)
              != (v.result_code == VerificationResultCode.passed))
            validation (ok v))))

pub record PublicationRecord : Type 0 where
  pub intent : PublicationIntent
  pub state : PublicationState
  pub version : ℤ
  pub prepared_head : Option PreparedHead
  pub verification : Option VerificationResult

heads_match : Option PreparedHead → Option VerificationResult → Bool
heads_match head none = true
heads_match none (some v) = false
heads_match (some p) (some v) = v.head_sha == p.head_sha

belongs : Option PreparedHead → String → Bool
belongs none publication_id = true
belongs (some p) publication_id = p.publication_id == publication_id

-- `PublicationRecord.__post_init__`
unfoldable pub check_record : PublicationRecord → Result PublicationRecord
unfolding heads_match belongs
check_record r = guard (ltb_ℤ r.version (pos 0)) validation (
    guard (not (belongs r.prepared_head r.intent.publication_id)) validation
      (guard (not (heads_match r.prepared_head r.verification)) validation (ok r)))
