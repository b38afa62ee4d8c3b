-- ===== src/Tests/Data.antt =====
-- Sample values for the tests.
use meta_loop.Base.Json.{end}
use meta_loop.Memory.Queue.{QueueRecord}
use meta_loop.Domain.Event.{Event}
use meta_loop.Base.Clock.{Time}
use meta_loop.Base.Int.{ℤ, pos}
use meta_loop.Domain.Enums.{
  r1, received, implementing, failed, task_transitioned, design_review, implementer,
}
use meta_loop.Services.Ports.{Governance}
use meta_loop.Base.{String, ok, none, ℕ, true, some, []}
use meta_loop.Domain.Task.{Task, moved}

abbrev pub at_design : Task
at_design = record {
  task_id = "T-1";
  source = record { kind = "issue"; reference = "42" };
  repository = record { name = "owner/repo"; revision = "main" };
  risk = record {
    proposed = r1;
    validated = r1;
    effective = r1;
    escalation_reason = none;
    governance_revision = some "rev-7";
  };
  created_at = 1000;
  status = design_review;
  version = pos 3;
  rework_round = pos 0;
  artifacts = [];
}

abbrev pub at_work : Task
at_work = moved at_design implementing

abbrev pub dead : Task
dead = record at_design { status = failed }

abbrev pub fresh_task : Task
fresh_task = record at_design { status = received; version = pos 0 }

abbrev pub evt : String → ℤ → Event
evt id n = record {
  event_id = id;
  task_id = "T-1";
  event_type = task_transitioned;
  occurred_at = 1000;
  actor = implementer;
  payload = end;
  schema_version = pos 1;
  causation_id = none;
  correlation_id = "T-1";
  sequence = n;
}

abbrev pub waiting : String → ℤ → Time → QueueRecord
waiting k p t = record {
  task_id = k;
  priority = p;
  available_at = t;
  idempotency_key = k;
  claimed_by = none;
  lease_expires_at = none;
  attempt = 0;
}

abbrev pub leased : String → Time → ℕ → QueueRecord
leased k t n = record (waiting k (pos 0) 0) {
  claimed_by = some "W-1";
  lease_expires_at = some t;
  attempt = n;
}

-- governance that authorises every action
abbrev pub open_gate : Governance
open_gate = record { read_revision = λ _. ok tt; authorize = λ _ _. ok true }
