-- ===== src/Models/Queue.antt =====
-- application/models.py: queue results, the fuse, intake and ingestion records, catalogued artifacts.
use meta_loop.Base.Clock.{Time}
use meta_loop.Base.{String, Bool, String-discrete, Eq, Option, List, ℕ_discrete, ℕ}
use meta_loop.Domain.Artifacts.{ArtifactRef-discrete, ArtifactRef}

pub record Lease : Type 0 where
  pub task_id : String
  pub worker_id : String
  pub expires_at : Time
  pub attempt : ℕ

pub record QueueEnqueueResult : Type 0 where
  pub task_id : String
  pub created : Bool

pub record QueueCompletionResult : Type 0 where
  pub task_id : String
  pub terminal : Bool

pub record QueueFailureResult : Type 0 where
  pub task_id : String
  pub retry_at : Option Time
  pub terminal : Bool

pub record FuseState : Type 0 where
  pub engaged : Bool
  pub changed_at : Time
  pub governance_revision : Option String

pub record ControlEvent : Type 0 where
  pub action : String
  pub occurred_at : Time
  pub governance_revision : Option String

-- The canonical request is the text that `json.dumps` writes, as its characters.
pub record IntakeRecord : Type 0 where
  pub request_id : String
  pub canonical_request : List ℕ
  pub task_id : String

unfoldable pub IntakeRecord-discrete : Discrete IntakeRecord
unfolding String-discrete ℕ_discrete
IntakeRecord-discrete = hlevel (String-discrete, ℕ_discrete)

instance abbrev pub intake_record_eq : Eq IntakeRecord
intake_record_eq = record { dec = IntakeRecord-discrete }

pub record IssueIngestionRecord : Type 0 where
  pub source_key : String
  pub canonical_request : List ℕ
  pub task_id : String
  pub trigger_event_id : String

unfoldable pub IssueIngestionRecord-discrete : Discrete IssueIngestionRecord
unfolding String-discrete ℕ_discrete
IssueIngestionRecord-discrete = hlevel (String-discrete, ℕ_discrete)

instance abbrev pub issue_ingestion_record_eq : Eq IssueIngestionRecord
issue_ingestion_record_eq = record { dec = IssueIngestionRecord-discrete }

pub record IssueIngestionReceipt : Type 0 where
  pub task_id : String
  pub created : Bool

pub record CatalogedArtifact : Type 0 where
  pub reference : ArtifactRef
  pub classification : String
  pub source_kind : String
  pub size_bytes : ℕ

unfoldable pub CatalogedArtifact-discrete : Discrete CatalogedArtifact
unfolding String-discrete ℕ_discrete ArtifactRef-discrete
CatalogedArtifact-discrete = hlevel (String-discrete, ℕ_discrete, ArtifactRef-discrete)

instance abbrev pub cataloged_artifact_eq : Eq CatalogedArtifact
cataloged_artifact_eq = record { dec = CatalogedArtifact-discrete }
