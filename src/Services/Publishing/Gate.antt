-- ===== src/Services/Publishing/Gate.antt =====
-- application/publication.py: `PublicationCheckService`.
pub mod Newest
pub mod Verdict
use meta_loop.Memory.Observations.{append_observation}
use meta_loop.Services.Ports.{check_fuse}
use meta_loop.Base.Int.{pos}
use meta_loop.Services.Publishing.{Ending, in_block, on_observations, left, passed_head, committed}
use meta_loop.Memory.UnitOfWork.{Store}
use meta_loop.Models.Publication.{PreparedHead, PublicationRecord}
use meta_loop.Models.Checks.{
  CheckRunObservation, CheckGateResult, success, check_status_eq, check_gate_result, CheckRunStatus,
  check_conclusion_eq,
}
use meta_loop.Models.Effect.{
  PublicationEffectRecord, PublicationReceipt, PullRequestReceipt, reconciled, effect_state_eq,
  effect_intent_canonical,
}
use meta_loop.Base.{
  ◌>>=◌, ◌>>◌, Dict, String, Option, List, Bool, Exec, Result, ◌==◌, ok, false, all, some, true,
  if◌then◌else◌, ◌&&◌, put, ◌∷◌, get, none, pure, string_eq, err, not, raise_if, validation, gets,
  ◌!=◌, elem, lift, ltb, [], or_raise, ◌||◌, nat_eq, idempotency_conflict, list_eq, option_eq,
}

abbrev pub Latest : Type 0
Latest = Dict String CheckRunObservation

-- the observations by name, a later one in the place of an earlier one
unfoldable pub is_observation_of : String → String → CheckRunObservation → Bool
is_observation_of publication_id head_sha o =
    o.publication_id == publication_id && o.head_sha == head_sha

unfoldable pub newer : Option CheckRunObservation → CheckRunObservation → Latest → Result Latest
newer none o current = ok (put o.check_name o current)
newer (some previous) o current =
    if previous.observed_at == o.observed_at
    then err validation
    else if ltb previous.observed_at o.observed_at
    then ok (put o.check_name o current)
    else ok current

-- the loop of `check` over what the check source has read
unfoldable pub collect : String → String → List CheckRunObservation → Latest → Result Latest
collect publication_id head_sha [] current = ok current
collect publication_id head_sha (o ∷ os) current =
    if not (is_observation_of publication_id head_sha o)
    then err validation
    else elim (newer (get o.check_name current) o current) [
      | err e ↦ err e
      | ok next ↦ collect publication_id head_sha os next
    ]

unfoldable pub is_success : Option CheckRunObservation → Bool
is_success none = false
is_success (some o) = o.status == CheckRunStatus.completed && o.conclusion == some success

unfoldable pub all_passed : List String → Latest → Bool
all_passed names current = all (λ name. is_success (get name current)) names

unfoldable pub is_settled :
    PublicationEffectRecord
    → PublicationReceipt
    → Option PullRequestReceipt
    → String
    → PreparedHead
    → Bool
is_settled r c none publication_id h = false
is_settled r c (some p) publication_id h =
    c.state == reconciled
    && r.intent.publication_id == publication_id
    && r.intent.head_sha == h.head_sha
    && r.intent.deterministic_ref == h.deterministic_ref
    && c.publication_id == publication_id
    && p.head_sha == h.head_sha
    && p.tree_sha == h.tree_sha
    && p.base_sha == h.base_sha

-- the effect is reconciled to the exact head
unfoldable pub exact_effect :
    Option PublicationEffectRecord → String → PreparedHead → Option PublicationEffectRecord
exact_effect none publication_id h = none
exact_effect (some r) publication_id h = elim r.receipt [
  | none ↦ none
  | some c ↦ if is_settled r c c.pull_request publication_id h then some r else none
]

-- `_validated_state`
unfoldable pub validated_state :
    String → String → Exec Store (PublicationRecord × PreparedHead × PublicationEffectRecord)
validated_state publication_id effect_id = do
  check_fuse
  s ← gets (λ s. s)
  found ← or_raise (passed_head (get publication_id s.publications)) validation
  effect ← or_raise (exact_effect (get effect_id s.effects) publication_id found.1) validation
  pure (found.0, found.1, effect)

-- the appends of the second block
unfoldable pub store_all : List CheckRunObservation → Exec Store (Unit {0})
store_all [] = pure tt
store_all (o ∷ os) = do on_observations (λ w. append_observation w o); store_all os

-- the second block
unfoldable pub store_checks :
    String
    → String
    → PreparedHead
    → PublicationEffectRecord
    → List CheckRunObservation
    → Exec Store (Ending (Unit {0}))
store_checks publication_id effect_id h effect observations = do
  found ← validated_state publication_id effect_id
  raise_if
      (found.1.head_sha != h.head_sha
        || effect_intent_canonical found.2.intent != effect_intent_canonical effect.intent)
      idempotency_conflict
  store_all observations
  pure (committed (ok tt))

abbrev pub gate_result : String → String → List String → Bool → CheckGateResult
gate_result publication_id head_sha names passed = record {
  publication_id = publication_id;
  head_sha = head_sha;
  required_checks = names;
  passed = passed;
  schema_version = pos 1;
}

-- a list without repetitions
unfoldable pub has_no_repeat : List String → Bool
has_no_repeat [] = true
has_no_repeat (x ∷ xs) = not (elem x xs) && has_no_repeat xs

-- the configuration's tests in `__init__`; the head is forty zeros
unfoldable pub check_required : List String → Result (Unit {0})
check_required names =
    if names == [] || not (has_no_repeat names)
    then err validation
    else elim (check_gate_result
        (gate_result "validation" "0000000000000000000000000000000000000000" names false)) [
          | err _ ↦ err validation
          | ok _ ↦ ok tt
        ]

-- `self._check_source.read`: what the remote side gives or raises
abbrev pub CheckSource : Type 0
CheckSource = String → String → String → Result (List CheckRunObservation)

unfoldable pub check : CheckSource → List String → String → String → Exec Store CheckGateResult
check source names publication_id effect_id = do
  found ← in_block (do x ← validated_state publication_id effect_id; pure (left x))
  observations ← lift (source publication_id found.0.intent.repository_name found.1.head_sha)
  current ← lift (collect publication_id found.1.head_sha observations [])
  in_block (store_checks publication_id effect_id found.1 found.2 observations)
  lift (
      check_gate_result
        (gate_result publication_id found.1.head_sha names (all_passed names current)))
