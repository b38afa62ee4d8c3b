-- ===== src/Tests/Ledgers.antt =====
-- Tests of the ledgers and of the unit of work.
use meta_loop.Base.Int.{pos}
use meta_loop.Memory.UnitOfWork.Blocks.{block}
use meta_loop.Memory.UnitOfWork.Blocks.{Step, call, calls, committing, block_lem, rolling_back}
use meta_loop.Models.Workspace.{WorkspaceRecord, implementation, active}
use meta_loop.Memory.Sessions.{Sessions}
use meta_loop.Domain.Enums.{implementer}
use meta_loop.Memory.UnitOfWork.{load, visible, new_unit, empty_store}
use meta_loop.Memory.Workspaces.{
  IsExclusive, record_workspace, release_workspace, calls-IsExclusive,
}
use meta_loop.Models.Runner.{
  RunnerSessionRequest, RunnerSessionState, RunnerSessionRecord, RunnerSessionOutcome,
}
use meta_loop.Base.{
  String, get, List, [], String-discrete, some, ◌≡◌, ◌∷◌, ok, false, none, string_eq, refl,
}
use meta_loop.Memory.Ledgers.{create_intake, Catalog}
use meta_loop.Models.Queue.{IntakeRecord, IssueIngestionRecord, CatalogedArtifact, intake_record_eq}

abbrev intake : IntakeRecord
intake = record { request_id = "R-1"; canonical_request = []; task_id = "T-1" }

stored : (create_intake intake []).0 ≡ ok intake
unfolding create_intake get
stored = refl

abbrev other_intake : IntakeRecord
other_intake = record { request_id = "R-1"; canonical_request = []; task_id = "T-2" }

abbrev ingestion : String → IssueIngestionRecord
ingestion key = record {
  source_key = key;
  canonical_request = [];
  task_id = "T-1";
  trigger_event_id = "42";
}

abbrev artifact : String → CatalogedArtifact
artifact kind = record {
  reference = record {
    digest = record { value = "d" };
    logical_name = "patch";
    media_type = "text/x-diff";
    schema_version = pos 1;
  };
  classification = "internal";
  source_kind = kind;
  size_bytes = 10;
}

abbrev catalog : Catalog
catalog = ("d", artifact "a") ∷ []

listed : get "d" catalog ≡ some (artifact "a")
unfolding get String-discrete
listed = refl

abbrev session_request : RunnerSessionRequest
session_request = record {
  session_id = "S-1";
  task_id = "T-1";
  role = implementer;
  expected_task_version = pos 4;
  expected_sequence = pos 1;
  input_artifacts = [];
  timeout_seconds = pos 60;
  correlation_id = "T-1";
  schema_version = pos 1;
}

abbrev outcome : RunnerSessionState → RunnerSessionOutcome
outcome state = record { session_id = "S-1"; state = state; summary = "done" }

abbrev done : RunnerSessionRecord
done = record {
  request = session_request;
  state = RunnerSessionState.succeeded;
  outcome = some (outcome RunnerSessionState.succeeded);
}

abbrev sessions : Sessions
sessions = ("S-1", done) ∷ []

is_done : get "S-1" sessions ≡ some done
unfolding get String-discrete
is_done = refl

abbrev workspace : String → WorkspaceRecord
workspace id = record {
  request = record {
    allocation_id = id;
    task_id = "T-1";
    role = implementer;
    purpose = implementation;
    source_revision = "main";
    expected_task_version = pos 4;
    expected_sequence = pos 1;
    correlation_id = "T-1";
    governance_revision = some "rev-7";
    schema_version = pos 1;
  };
  read_only = false;
  repository_name = "owner/repo";
  state = active;
}

calls-IsExclusive_example :
    IsExclusive (record_workspace (workspace "b") (("a", workspace "a") ∷ [])).1
    × IsExclusive (release_workspace "a" (("a", workspace "a") ∷ [])).1
    × ((release_workspace "a" (release_workspace "a" (("a", workspace "a") ∷ [])).1).1
        ≡ (release_workspace "a" (("a", workspace "a") ∷ [])).1)
calls-IsExclusive_example =
    calls-IsExclusive (workspace "b") "a" (("a", workspace "a") ∷ []) ((λ _. refl), tt)

-- a block that writes, commits and writes again
abbrev statements : List Step
statements =
    call (λ s. record s {
      control_events =
          record { action = "first"; occurred_at = 1; governance_revision = none }
          ∷ s.control_events;
    })
    ∷ committing
    ∷ call (λ s. record s {
      control_events =
          record { action = "second"; occurred_at = 2; governance_revision = none }
          ∷ s.control_events;
    })
    ∷ rolling_back
    ∷ []

starts_empty : load new_unit.saved new_unit.heap ≡ some empty_store
unfolding load
starts_empty = refl

block_lem_example : visible (block statements new_unit) ≡ some (calls statements empty_store)
block_lem_example = block_lem statements empty_store new_unit starts_empty
