-- ===== src/Services/Publishing.antt =====
-- application/publication.py: the gates of publication.
pub mod Preparation
pub mod Approval
pub mod Remote
pub mod Gate
use meta_loop.Models.Publication.{
  PublicationRecord, PreparedHead, verified, VerificationStatus, VerificationResultCode,
  publication_state_eq, verification_status_eq, result_code_eq,
}
use meta_loop.Memory.Observations.{Observations}
use meta_loop.Base.{
  Result, Exec, Option, zoom, err, ok, some, none, if◌then◌else◌, ◌==◌, ◌&&◌, string_eq,
}
use meta_loop.Memory.Effects.{EffectSources, Effects}
use meta_loop.Memory.Approvals.{ApprovalSources, Approvals}
use meta_loop.Memory.Publications.{References, Publications}
use meta_loop.Memory.UnitOfWork.{Store}

-- the stores that the publication ledger reads
abbrev pub references_of : Store → References
references_of s = record {
  tasks = s.tasks;
  events = s.events;
  artifacts = s.artifacts;
  worker_results = s.worker_results;
  runner_sessions = s.runner_sessions;
}

abbrev pub approval_sources_of : Store → ApprovalSources
approval_sources_of s = record {
  publications = s.publications;
  artifacts = s.artifacts;
  runner_sessions = s.runner_sessions;
  worker_results = s.worker_results;
}

abbrev pub effect_sources_of : Store → EffectSources
effect_sources_of s = record { publications = s.publications; approvals = s.approvals }

abbrev pub on_publications : {A : Type 0} → (References → Exec Publications A) → Exec Store A
on_publications m s =
    zoom (λ s. s.publications) (λ t s. record s { publications = t }) (m (references_of s)) s

abbrev pub on_approvals : {A : Type 0} → (ApprovalSources → Exec Approvals A) → Exec Store A
on_approvals m s =
    zoom (λ s. s.approvals) (λ t s. record s { approvals = t }) (m (approval_sources_of s)) s

abbrev pub on_effects : {A : Type 0} → (EffectSources → Exec Effects A) → Exec Store A
on_effects m s = zoom (λ s. s.effects) (λ t s. record s { effects = t }) (m (effect_sources_of s)) s

abbrev pub on_observations : {A : Type 0} → (Publications → Exec Observations A) → Exec Store A
on_observations m s =
    zoom (λ s. s.observations) (λ t s. record s { observations = t }) (m s.publications) s

-- How a `with` block ends that does not raise: with a commit, after which it may still raise, or
-- without one.
pub data Ending (A : Type 0) : Type 0 where
  committed : Result A → Ending A
  left : A → Ending A

-- `with self._uow_factory() as uow:`: the block works on a copy of what is saved
unfoldable pub in_block : {A : Type 0} → Exec Store (Ending A) → Exec Store A
in_block m s =
    let (r, t) = m s in
    elim r [ err e ↦ (err e, s) | ok x ↦ elim x [ left a ↦ (ok a, s) | committed r ↦ (r, t) ] ]

-- the tests that approval, publication and checks make on the verification
unfoldable pub passed_head : Option PublicationRecord → Option (PublicationRecord × PreparedHead)
passed_head none = none
passed_head (some r) = elim r.prepared_head [
  | none ↦ none
  | some h ↦ elim r.verification [
    | none ↦ none
    | some v ↦
        if r.state == verified
          && v.status == VerificationStatus.succeeded
          && v.result_code == VerificationResultCode.passed
          && v.head_sha == h.head_sha
        then some (r, h)
        else none
  ]
]
