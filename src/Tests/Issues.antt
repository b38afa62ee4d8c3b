-- ===== src/Tests/Issues.antt =====
-- Tests of the issue contract and of ingestion.
use meta_loop.Services.Issues.Terms.{IsContract}
use meta_loop.Services.Issues.{repository_name, str_items}
use meta_loop.Base.Int.{ℤ-discrete, ◌+ℤ◌, pos}
use meta_loop.Memory.Queue.{enqueue}
use meta_loop.Domain.Task.{attach_artifact, Task-discrete}
use meta_loop.Domain.Artifacts.{ArtifactRef-discrete}
use meta_loop.Domain.Enums.{RiskClass-discrete}
use meta_loop.Memory.Events.{read}
use meta_loop.Memory.Events.{append, append_new, history}
use meta_loop.Memory.Ledgers.{find_trigger, record_ingestion, register_artifact, create_intake}
use meta_loop.Memory.Tasks.{create_task, update_task}
use meta_loop.Domain.Event.{new_event}
use meta_loop.Domain.Task.{new_source, new_repository, check_risk, create}
use meta_loop.Services.Intake.{start, start_new, intake_task}
use meta_loop.Services.Ports.{is_authorized, asks}
use meta_loop.Domain.Artifacts.{new_digest, validate_logical_name, new_ref}
use meta_loop.Services.Ingestion.Once.{ingest_repeat}
use meta_loop.Services.Workers.{register, reference_of}
use meta_loop.Memory.UnitOfWork.{empty_store}
use meta_loop.Tests.Data.{open_gate}
use meta_loop.Services.Issues.Contract.{parse_written_iff}
use meta_loop.Base.Json.{Fields, obj, field, arr, str, num, end}
use meta_loop.Domain.Enums.{r1}
use meta_loop.Models.Queue.{IssueIngestionReceipt}
use meta_loop.Services.Ingestion.{Moments, PutBlob, ingest, ingest_new, record_source}
use meta_loop.Services.Issues.{IssueTaskSpec, Loads, parse_issue_task_spec, blocks, IssueCandidate}
use meta_loop.Services.Issues.Fence.{NoTick}
use meta_loop.Services.Issues.Search.{Found, blocks_iff}
use meta_loop.Base.{
  put, get, String, List, ℕ, ◌∷◌, [], some, ok, refl, ◌≡◌, all, not, ◌==◌, true, false, arith,
  codes, len, nat_eq, str_append, ℕ_discrete, String-discrete, List-discrete, if◌then◌else◌, ◌↔◌,
  none, list_eq,
}

no_tick : (s : List ℕ) → all (λ c. not (c == b'`')) s ≡ true → NoTick s
no_tick [] h = tt
no_tick (c ∷ s) h = ground (arith, h, no_tick s)

abbrev spec : IssueTaskSpec
spec = record {
  objective = "fix";
  acceptance_criteria = "tests pass" ∷ [];
  revision = "1111111111111111111111111111111111111111";
  risk = r1;
}

abbrev body : String
body =
    "see\n```meta-loop-json\n{\"acceptance_criteria\":[\"tests pass\"],\"objective\":\"fix\",\"revision\":\"1111111111111111111111111111111111111111\",\"risk\":\"R1\",\"schema_version\":1}```\nend"

abbrev written : List ℕ
written =
    codes
      "{\"acceptance_criteria\":[\"tests pass\"],\"objective\":\"fix\",\"revision\":\"1111111111111111111111111111111111111111\",\"risk\":\"R1\",\"schema_version\":1}"

-- the items in the order of the text
abbrev fields : Fields
fields = field "acceptance_criteria" (arr (str_items spec.acceptance_criteria)) (
    field "objective" (str spec.objective) (
      field "revision" (str spec.revision)
        (field "risk" (str "R1") (field "schema_version" (num (pos 1)) end))))

-- a reader that knows this text alone
abbrev loads : Loads
loads = λ s. if s == written then some (obj fields) else none

knows : loads written ≡ some (obj fields)
unfolding ℕ_discrete List-discrete
knows = refl

ticks :
    (all (λ c. not (c == b'`')) written ≡ true)
    × (all (λ c. not (c == b'`')) (codes "see\n") ≡ true)
    × (all (λ c. not (c == b'`')) (codes "\nend") ≡ true)
unfolding ℕ_discrete
ticks = (refl, refl, refl)

parse_written_iff_example : (parse_issue_task_spec loads body ≡ ok spec) ↔ IsContract fields spec
unfolding ℕ_discrete
parse_written_iff_example =
    parse_written_iff loads body (codes "see\n") (codes "\nend") written
      (codes
        "\"acceptance_criteria\":[\"tests pass\"],\"objective\":\"fix\",\"revision\":\"1111111111111111111111111111111111111111\",\"risk\":\"R1\",\"schema_version\":1}")
      b'{' fields spec refl refl (no_tick written ticks.0) (no_tick (codes "see\n") ticks.1)
      (no_tick (codes "\nend") ticks.2) refl (omega arith) knows

abbrev candidate : IssueCandidate
candidate = record {
  provider = "github";
  source_key = "K-1";
  source_reference = "owner/repo#7";
  trigger_event_id = "G-1";
  trigger_actor = "ann";
  trigger_label = "go";
  occurred_at = 900;
  spec = spec;
}

abbrev moments : String → Moments
moments id = record {
  received_at = 1000;
  received_id = str_append id "1";
  registered_at = 1001;
  registered_id = str_append id "2";
  ingested_at = 1002;
  ingested_id = str_append id "3";
}

abbrev put_blob : PutBlob
put_blob = λ s. ok ("3333333333333333333333333333333333333333333333333333333333333333", 5)

abbrev first : IssueIngestionReceipt
first = record { task_id = "K-1"; created = true }

ingests :
    (ingest put_blob (some open_gate) (some "rev-7") candidate (moments "E") empty_store).0
    ≡ ok first
unfolding ingest repository_name ingest_new record_source register reference_of new_digest
    validate_logical_name new_ref is_authorized asks start start_new intake_task new_source
    new_repository check_risk create new_event create_task create_intake append append_new history
    read update_task register_artifact record_ingestion find_trigger enqueue attach_artifact get put
    RiskClass-discrete String-discrete ℤ-discrete ℕ_discrete ◌+ℤ◌ Task-discrete ArtifactRef-discrete
ingests = refl

ingest_repeat_example :
    let s' =
      (ingest put_blob (some open_gate) (some "rev-7") candidate (moments "E") empty_store).1 in
    ingest put_blob (some open_gate) (some "rev-7") candidate (moments "F") s'
    ≡ (ok (record { task_id = "K-1"; created = false }), s')
ingest_repeat_example =
    ingest_repeat put_blob put_blob (some open_gate) (some "rev-7") candidate (moments "E")
      (moments "F") empty_store first ingests

blocks_iff_example :
    (blocks (len body) (codes body) ≡ written ∷ []) ↔ Found (codes body) (written ∷ [])
blocks_iff_example = blocks_iff (len body) (codes body) (written ∷ []) (omega arith)
