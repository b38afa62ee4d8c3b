-- ===== src/Services/Ingestion.antt =====
-- application/ingestion.py: `IssueIngestionService`.
pub mod Once
use meta_loop.Memory.Events.{append, read}
use meta_loop.Base.Json.{field, str, end}
use meta_loop.Domain.Enums.{source_ingested, system}
use meta_loop.Domain.Event.{Event, new_event}
use meta_loop.Base.Int.{ℤ, pos, ◌+ℤ◌}
use meta_loop.Domain.Artifacts.{ArtifactRef}
use meta_loop.Services.Intake.{IntakeRequest, start}
use meta_loop.Memory.UnitOfWork.{Store}
use meta_loop.Services.Ports.{Governance, is_authorized, on_events, need_task}
use meta_loop.Models.Queue.{IssueIngestionRecord, IssueIngestionReceipt}
use meta_loop.Services.Workers.{ArtifactRequest, register}
use meta_loop.Services.Issues.{repository_name, IssueCandidate, candidate_canonical, spec_canonical}
use meta_loop.Base.Clock.{Time}
use meta_loop.Memory.Ledgers.{Ingestions, find_trigger, record_ingestion}
use meta_loop.Base.{◌>>=◌, ◌>>◌, false, Bool, list_eq, nat_eq, true, validation, string_eq}
use meta_loop.Base.{
  String, Option, List, ℕ, Exec, Result, zoom, none, some, pure, lift, gets, raise_if, not, ◌!=◌,
  if◌then◌else◌, err, ok, get, length, unsupported_governance, idempotency_conflict,
}

abbrev pub on_ingestions : {A : Type 0} → Exec Ingestions A → Exec Store A
on_ingestions = zoom (λ s. s.ingestions) (λ t s. record s { ingestions = t })

-- what the clock and the generator give to the three events of an ingestion
pub record Moments : Type 0 where
  pub received_at : Time
  pub received_id : String
  pub registered_at : Time
  pub registered_id : String
  pub ingested_at : Time
  pub ingested_id : String

-- the request that `ingest` makes of a candidate
abbrev pub intake_of : Option String → IssueCandidate → IntakeRequest
intake_of revision c = record {
  request_id = c.source_key;
  source_kind = "github_issue";
  source_reference = c.source_reference;
  repository_name = repository_name c;
  repository_revision = c.spec.revision;
  proposed_risk = c.spec.risk;
  validated_risk = c.spec.risk;
  effective_risk = c.spec.risk;
  governance_revision = revision;
  enqueues = true;
  priority = pos 0;
}

abbrev pub issue_artifact : ArtifactRequest
issue_artifact = record {
  logical_name = "issue-task.json";
  media_type = "application/vnd.meta-loop.issue-task+json";
  classification = "source_input";
  source_kind = "github_issue";
  contains_secrets = false;
}

abbrev pub ingested_event : IssueCandidate → String → ArtifactRef → ℤ → Moments → Event
ingested_event c task_id reference sequence m = record {
  event_id = m.ingested_id;
  task_id = task_id;
  event_type = source_ingested;
  occurred_at = m.ingested_at;
  actor = system;
  payload = field "source_key" (str c.source_key) (
      field "spec_digest" (str reference.digest.value) (
        field "trigger_actor" (str c.trigger_actor) (
          field "trigger_event_id" (str c.trigger_event_id)
            (field "trigger_label" (str c.trigger_label) end))));
  schema_version = pos 1;
  causation_id = none;
  correlation_id = c.source_key;
  sequence = sequence +ℤ pos 1;
}

abbrev pub ingestion_of : IssueCandidate → String → IssueIngestionRecord
ingestion_of c task_id = record {
  source_key = c.source_key;
  canonical_request = candidate_canonical c;
  task_id = task_id;
  trigger_event_id = c.trigger_event_id;
}

abbrev pub receipt_of : IssueIngestionRecord → Bool → IssueIngestionReceipt
receipt_of r created = record { task_id = r.task_id; created = created }

-- what the blob store gives back for a text, or what it raises
abbrev pub PutBlob : Type 0
PutBlob = List ℕ → Result (String × ℕ)

-- what follows the registration of the artifact
unfoldable pub record_source :
    IssueCandidate → String → ArtifactRef → Moments → Exec Store IssueIngestionReceipt
record_source c task_id reference m = do
  current ← need_task task_id
  events ← on_events (read task_id)
  event ← lift (new_event (ingested_event c task_id reference (pos (length events)) m))
  on_events (append event (pos (length events)))
  stored ← on_ingestions (record_ingestion (ingestion_of c current.task_id))
  pure (receipt_of stored.0 stored.1)

-- the part of `ingest` for a source and a trigger that are not known
unfoldable pub ingest_new :
    PutBlob → Option String → IssueCandidate → Moments → Exec Store IssueIngestionReceipt
ingest_new put_blob revision c m = do
  task ← start (intake_of revision c) m.received_at m.received_id
  events ← on_events (read task.task_id)
  reference ←
      register (put_blob (spec_canonical c.spec)) task.task_id issue_artifact task.version
        (pos (length events)) m.registered_at m.registered_id
  record_source c task.task_id reference m

-- the part for a source that the ledger has
unfoldable pub ingest_again : IssueIngestionRecord → IssueCandidate → Result IssueIngestionReceipt
ingest_again r c =
    if r.canonical_request != candidate_canonical c
    then err idempotency_conflict
    else ok (receipt_of r false)

-- `ingest`; `reserve` does nothing in the in-memory ledger
unfoldable pub ingest :
    PutBlob
    → Option Governance
    → Option String
    → IssueCandidate
    → Moments
    → Exec Store IssueIngestionReceipt
ingest put_blob governance revision c m s =
    if not (is_authorized governance revision "github_issue_ingestion")
    then (err unsupported_governance, s)
    else if s.fuse.engaged
    then (err validation, s)
    else elim (get c.source_key s.ingestions) [
      | some known ↦ (ingest_again known c, s)
      | none ↦ elim (find_trigger c.trigger_event_id s.ingestions) [
        | some _ ↦ (err idempotency_conflict, s)
        | none ↦ ingest_new put_blob revision c m s
      ]
    ]
