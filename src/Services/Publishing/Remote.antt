-- ===== src/Services/Publishing/Remote.antt =====
-- application/publication.py: `PublicationPublishingService`.
pub mod Opening
pub mod Idempotent
pub mod Resume
use meta_loop.Services.Publishing.Approval.{is_eligible}
use meta_loop.Memory.Effects.{get_effect, reconcile, request_effect}
use meta_loop.Memory.UnitOfWork.{Store}
use meta_loop.Services.Publishing.{Ending, left, on_effects, in_block, committed, passed_head}
use meta_loop.Base.Int.{pos}
use meta_loop.Models.Review.{PublicationReviewDecision, approved, review_decision_eq}
use meta_loop.Models.Effect.{
  PublicationReceipt, PullRequestReceipt, PublicationEffectRecord, PublicationEffectIntent,
  effect_intent_canonical, receipt_canonical, reconciled, effect_state_eq, check_effect_intent,
}
use meta_loop.Models.Publication.{PublicationIntent, PublicationRecord, PreparedHead}
use meta_loop.Base.{
  ◌>>=◌, ◌>>◌, String, Option, Exec, Result, Bool, some, ◌==◌, false, if◌then◌else◌, pure, ◌&&◌,
  lift, ok, or_raise, none, ◌!=◌, string_eq, list_eq, nat_eq, err, idempotency_conflict, get,
  validation, not, str_append, any, guard, keep, values,
}

-- `self._publisher.reconcile`: what the remote side gives or raises
abbrev pub Publisher : Type 0
Publisher = PublicationIntent → PreparedHead → PublicationEffectIntent → Result PublicationReceipt

-- an approval of exactly this head
unfoldable pub is_exact_approval :
    PublicationIntent → PreparedHead → PublicationReviewDecision → Bool
is_exact_approval i h d =
    d.decision == approved
    && d.task_id == i.task_id
    && d.patch_digest == i.patch_digest
    && d.base_sha == h.base_sha
    && d.tree_sha == h.tree_sha
    && d.head_sha == h.head_sha

abbrev pub effect_intent_of : String → String → PreparedHead → PublicationEffectIntent
effect_intent_of effect_id publication_id h = record {
  effect_id = effect_id;
  publication_id = publication_id;
  head_sha = h.head_sha;
  deterministic_ref = h.deterministic_ref;
  schema_version = pos 1;
}

-- how the first transaction goes on: the receipt is there, or the publisher is to be called
pub data Opened : Type 0 where
  settled : PublicationReceipt → Opened
  calling : PublicationIntent → PreparedHead → PublicationEffectIntent → Opened

unfoldable pub opened : PublicationRecord → PreparedHead → PublicationEffectRecord → Ending Opened
opened p h r = elim r.receipt [
  | some receipt ↦ left (settled receipt)
  | none ↦ committed (ok (calling p.intent h r.intent))
]

-- the tests on the publication that was found
unfoldable pub check_found :
    PublicationRecord → PreparedHead → String → String → Store → Result PublicationEffectIntent
check_found p h publication_id effect_id s =
    guard
      (not (
        is_eligible (get p.intent.task_id s.tasks) p.intent
        && h.deterministic_ref == str_append "refs/heads/meta-loop/" publication_id))
      validation
      (guard
        (not (
          any (is_exact_approval p.intent h) (
            keep (λ d. d.publication_id == publication_id && d.head_sha == h.head_sha)
              (values s.approvals))))
        validation (check_effect_intent (effect_intent_of effect_id publication_id h)))

-- the request, and how the block ends
unfoldable pub request_open :
    PublicationRecord → PreparedHead → PublicationEffectIntent → Exec Store (Ending Opened)
request_open p h intent = do
  effect ← on_effects (λ w. request_effect w intent)
  pure (opened p h effect.0)

-- the first `with` block of `publish`; it only reads up to the request
unfoldable pub open_effect : String → String → Exec Store (Ending Opened)
open_effect publication_id effect_id s =
    if s.fuse.engaged
    then (err validation, s)
    else elim (passed_head (get publication_id s.publications)) [
      | none ↦ (err validation, s)
      | some (p, h) ↦ elim (check_found p h publication_id effect_id s) [
        | err e ↦ (err e, s)
        | ok intent ↦ request_open p h intent s
      ]
    ]

unfoldable pub is_pull_request_of :
    Option PullRequestReceipt → PreparedHead → PublicationEffectIntent → Bool
is_pull_request_of none h i = false
is_pull_request_of (some p) h i =
    p.publication_id == i.publication_id
    && p.base_sha == h.base_sha
    && p.tree_sha == h.tree_sha
    && p.head_sha == h.head_sha

-- `_validate_receipt`
unfoldable pub validate_receipt :
    PublicationReceipt → PreparedHead → PublicationEffectIntent → Result (Unit {0})
validate_receipt c h i =
    if c.publication_id == i.publication_id
      && c.effect_id == i.effect_id
      && c.state == reconciled
      && is_pull_request_of c.pull_request h i
    then ok tt
    else err idempotency_conflict

-- the effect as it was opened, if it is still there
unfoldable pub undrifted :
    Option PublicationEffectRecord → PublicationEffectIntent → Option PublicationEffectRecord
undrifted none i = none
undrifted (some r) i =
    if effect_intent_canonical r.intent != effect_intent_canonical i then none else some r

-- the rest of the second block, for an effect with a receipt and for one without
unfoldable pub close_known :
    Option PublicationReceipt → PublicationReceipt → Exec Store (Ending PublicationReceipt)
close_known (some known) c = lift (
    if receipt_canonical known != receipt_canonical c
    then err idempotency_conflict
    else ok (left known))
close_known none c = do
  r ← on_effects (λ w. reconcile w c)
  pure (committed (elim r.receipt [ none ↦ err validation | some stored ↦ ok stored ]))

-- the second `with` block of `publish`
unfoldable pub close_effect :
    String → PublicationEffectIntent → PublicationReceipt → Exec Store (Ending PublicationReceipt)
close_effect effect_id i c = do
  current ← on_effects (λ _. get_effect effect_id)
  r ← or_raise (undrifted current i) idempotency_conflict
  close_known r.receipt c

unfoldable pub finish : Publisher → String → Opened → Exec Store PublicationReceipt
finish publisher effect_id (settled receipt) = pure receipt
finish publisher effect_id (calling i h e) = do
  receipt ← lift (publisher i h e)
  lift (validate_receipt receipt h e)
  in_block (close_effect effect_id e receipt)

-- `publish`
unfoldable pub publish : Publisher → String → String → Exec Store PublicationReceipt
publish publisher publication_id effect_id = do
  x ← in_block (open_effect publication_id effect_id)
  finish publisher effect_id x
