-- ===== src/Models/Effect.antt =====
-- application/models.py: publication effects and the receipts of remote publication.
use meta_loop.Models.Identity.{
  phase8_canonical, is_phase8_identifier, is_phase8_sha, phase8_ref_is_known,
}
use meta_loop.Base.Json.{Json, obj, null, field, num, str, end}
use meta_loop.Base.{
  Eq, String, Result, Option, guard, Bool, List, not, false, some, ℕ, true, ◌==◌, none, validation,
  string_eq, ◌||◌, ◌&&◌, ok, ◌!=◌,
}
use meta_loop.Base.Int.{ℤ, pos, leb_ℤ, int_eq}

pub data PublicationEffectState : Type 0 where
  requested reconciled : PublicationEffectState

unfoldable pub PublicationEffectState-discrete : Discrete PublicationEffectState
PublicationEffectState-discrete = hlevel

instance abbrev pub effect_state_eq : Eq PublicationEffectState
effect_state_eq = record { dec = PublicationEffectState-discrete }

abbrev pub effect_state_value : PublicationEffectState → String
effect_state_value requested = "requested"
effect_state_value reconciled = "reconciled"

pub record PullRequestReceipt : Type 0 where
  pub publication_id : String
  pub pull_request_number : ℤ
  pub base_sha : String
  pub tree_sha : String
  pub head_sha : String
  pub schema_version : ℤ

-- `PullRequestReceipt.__post_init__`
unfoldable pub check_pull_request : PullRequestReceipt → Result PullRequestReceipt
check_pull_request p =
    guard
      (not (is_phase8_identifier p.publication_id)
        || leb_ℤ p.pull_request_number (pos 0)
        || not (
            is_phase8_sha p.base_sha 40
            && is_phase8_sha p.tree_sha 40
            && is_phase8_sha p.head_sha 40)
        || p.schema_version != pos 1)
      validation (ok p)

abbrev pub pull_request_to_dict : PullRequestReceipt → Json
pull_request_to_dict p = obj (
    field "schema_version" (num (pos 1)) (
      field "publication_id" (str p.publication_id) (
        field "pull_request_number" (num p.pull_request_number) (
          field "base_sha" (str p.base_sha)
            (field "tree_sha" (str p.tree_sha) (field "head_sha" (str p.head_sha) end))))))

pub record PublicationReceipt : Type 0 where
  pub publication_id : String
  pub effect_id : String
  pub state : PublicationEffectState
  pub pull_request : Option PullRequestReceipt
  pub schema_version : ℤ

-- the three tests on the pull request, as one: `true` where none of them raises
fits_receipt : PublicationEffectState → String → Option PullRequestReceipt → Bool
fits_receipt reconciled publication_id none = false
fits_receipt requested publication_id none = true
fits_receipt requested publication_id (some p) = false
fits_receipt reconciled publication_id (some p) = p.publication_id == publication_id

-- `PublicationReceipt.__post_init__`
unfoldable pub check_receipt : PublicationReceipt → Result PublicationReceipt
unfolding fits_receipt
check_receipt r =
    guard (not (is_phase8_identifier r.publication_id && is_phase8_identifier r.effect_id))
      validation
      (guard (r.schema_version != pos 1) validation
        (guard (not (fits_receipt r.state r.publication_id r.pull_request)) validation (ok r)))

abbrev pub optional_pull_request : Option PullRequestReceipt → Json
optional_pull_request none = null
optional_pull_request (some p) = pull_request_to_dict p

unfoldable pub receipt_canonical : PublicationReceipt → List ℕ
unfolding phase8_canonical
receipt_canonical r = phase8_canonical (
    obj (
      field "schema_version" (num (pos 1)) (
        field "publication_id" (str r.publication_id) (
          field "effect_id" (str r.effect_id) (
            field "state" (str (effect_state_value r.state))
              (field "pull_request" (optional_pull_request r.pull_request) end))))))

pub record PublicationEffectIntent : Type 0 where
  pub effect_id : String
  pub publication_id : String
  pub head_sha : String
  pub deterministic_ref : String
  pub schema_version : ℤ

-- `PublicationEffectIntent.__post_init__`
unfoldable pub check_effect_intent : PublicationEffectIntent → Result PublicationEffectIntent
check_effect_intent i =
    guard
      (not (is_phase8_identifier i.effect_id && is_phase8_identifier i.publication_id)
        || not (is_phase8_sha i.head_sha 40)
        || not (phase8_ref_is_known i.publication_id i.deterministic_ref)
        || i.schema_version != pos 1)
      validation (ok i)

unfoldable pub effect_intent_canonical : PublicationEffectIntent → List ℕ
unfolding phase8_canonical
effect_intent_canonical i = phase8_canonical (
    obj (
      field "schema_version" (num (pos 1)) (
        field "effect_id" (str i.effect_id) (
          field "publication_id" (str i.publication_id) (
            field "head_sha" (str i.head_sha)
              (field "deterministic_ref" (str i.deterministic_ref) end))))))

pub record PublicationEffectRecord : Type 0 where
  pub intent : PublicationEffectIntent
  pub receipt : Option PublicationReceipt

receipt_belongs : Option PublicationReceipt → PublicationEffectIntent → Bool
receipt_belongs none i = true
receipt_belongs (some r) i = r.publication_id == i.publication_id && r.effect_id == i.effect_id

-- `PublicationEffectRecord.__post_init__`
unfoldable pub check_effect_record : PublicationEffectRecord → Result PublicationEffectRecord
unfolding receipt_belongs
check_effect_record r = guard (not (receipt_belongs r.receipt r.intent)) validation (ok r)
