-- ===== src/Memory/Effects.antt =====
-- infrastructure/memory.py: `InMemoryPublicationEffectStore`.
pub mod Exact
pub mod Refs
use meta_loop.Models.Review.{PublicationReviewDecision, decision_value}
use meta_loop.Models.Publication.{PublicationRecord, PreparedHead, VerificationResult}
use meta_loop.Memory.Approvals.{Approvals, is_verified}
use meta_loop.Models.Effect.{
  PublicationEffectIntent, PublicationReceipt, PublicationEffectRecord, PullRequestReceipt,
  effect_intent_canonical, receipt_canonical, check_effect_record, reconciled, effect_state_eq,
}
use meta_loop.Memory.Publications.{Publications}
use meta_loop.Base.{
  Dict, Option, String, Bool, Exec, ◌==◌, any, false, get, ok, some, string_eq, ◌&&◌, values, none,
  if◌then◌else◌, ◌!=◌, err, idempotency_conflict, validation, not, true, put, list_eq, nat_eq,
}

abbrev pub Effects : Type 0
Effects = Dict String PublicationEffectRecord

-- the stores the effects read
pub record EffectSources : Type 0 where
  pub publications : Publications
  pub approvals : Approvals

unfoldable pub is_approval_of : PublicationEffectIntent → PublicationReviewDecision → Bool
is_approval_of i d =
    d.publication_id == i.publication_id
    && d.head_sha == i.head_sha
    && decision_value d.decision == "approved"

abbrev pub has_approval : Approvals → PublicationEffectIntent → Bool
has_approval a i = any (is_approval_of i) (values a)

is_effect_of_head : Option PreparedHead → Option VerificationResult → PublicationEffectIntent → Bool
is_effect_of_head (some p) v i =
    is_verified v && p.head_sha == i.head_sha && p.deterministic_ref == i.deterministic_ref
is_effect_of_head none v i = false

-- the publication has exactly the head and the ref of the intent
unfoldable pub is_exact_head : Option PublicationRecord → PublicationEffectIntent → Bool
unfolding is_effect_of_head
is_exact_head none i = false
is_exact_head (some r) i = is_effect_of_head r.prepared_head r.verification i

unfoldable pub has_same_ref : PublicationEffectIntent → PublicationEffectRecord → Bool
has_same_ref i r =
    r.intent.publication_id == i.publication_id && r.intent.deterministic_ref == i.deterministic_ref

abbrev pub effect_record :
    PublicationEffectIntent → Option PublicationReceipt → PublicationEffectRecord
effect_record i c = record { intent = i; receipt = c }

unfoldable pub request_effect :
    EffectSources → PublicationEffectIntent → Exec Effects (PublicationEffectRecord × Bool)
request_effect w i s = elim (get i.effect_id s) [
  | some current ↦ (
    if effect_intent_canonical current.intent != effect_intent_canonical i
        then err idempotency_conflict
        else ok (current, false),
    s,
  )
  | none ↦
      if not (is_exact_head (get i.publication_id w.publications) i && has_approval w.approvals i)
      then (err idempotency_conflict, s)
      else if any (has_same_ref i) (values s)
      then (err idempotency_conflict, s)
      else (ok (effect_record i none, true), put i.effect_id (effect_record i none) s)
]

unfoldable pub get_effect : String → Exec Effects (Option PublicationEffectRecord)
get_effect effect_id s = (ok (get effect_id s), s)

is_receipt_of : PublicationRecord → Option PreparedHead → Option PullRequestReceipt → Bool
is_receipt_of r (some p) (some pull) =
    pull.base_sha == r.intent.base_sha && pull.tree_sha == p.tree_sha && pull.head_sha == p.head_sha
is_receipt_of r _ _ = false

-- the receipt's pull request has the three identities of the prepared head
unfoldable pub is_exact_receipt : Option PublicationRecord → PublicationReceipt → Bool
unfolding is_receipt_of
is_exact_receipt none c = false
is_exact_receipt (some r) c = is_receipt_of r r.prepared_head c.pull_request

-- the effect of the receipt, if it belongs to the same publication
unfoldable pub effect_of :
    Option PublicationEffectRecord → PublicationReceipt → Option PublicationEffectRecord
effect_of none c = none
effect_of (some r) c = if r.intent.publication_id != c.publication_id then none else some r

unfoldable pub settle :
    Option PublicationReceipt
    → PublicationEffectRecord
    → PublicationReceipt
    → Exec Effects PublicationEffectRecord
settle (some old) r c s =
    (if receipt_canonical old != receipt_canonical c then err idempotency_conflict else ok r, s)
settle none r c s = elim (check_effect_record (effect_record r.intent (some c))) [
  | err e ↦ (err e, s)
  | ok updated ↦ (ok updated, put c.effect_id updated s)
]

unfoldable pub reconcile : EffectSources → PublicationReceipt → Exec Effects PublicationEffectRecord
reconcile w c s = elim (effect_of (get c.effect_id s) c) [
  | none ↦ (err validation, s)
  | some current ↦
      if c.state != reconciled
      then (err idempotency_conflict, s)
      else if not (is_exact_receipt (get c.publication_id w.publications) c)
      then (err idempotency_conflict, s)
      else settle current.receipt current c s
]
