-- ===== src/Domain/Enums.antt =====
-- domain/enums.py: the controlled values, with the texts that they stand for.
use meta_loop.Base.{Eq, String}

pub data RiskClass : Type 0 where
  r0 r1 r2 r3 : RiskClass

pub data Role : Type 0 where
  system validator planner design_reviewer implementer patch_reviewer : Role

pub data TaskStatus : Type 0 where
  received validated planned design_review implementing preflight patch_review : TaskStatus
  ready_to_publish proposal_ready rework_required blocked failed completed : TaskStatus

pub data EventType : Type 0 where
  task_received task_transitioned task_blocked review_rework_required : EventType
  artifact_registered runner_session_requested workspace_allocated : EventType
  workspace_released source_ingested : EventType

unfoldable pub RiskClass-discrete : Discrete RiskClass
RiskClass-discrete = hlevel

unfoldable pub Role-discrete : Discrete Role
Role-discrete = hlevel

unfoldable pub TaskStatus-discrete : Discrete TaskStatus
TaskStatus-discrete = hlevel

unfoldable pub EventType-discrete : Discrete EventType
EventType-discrete = hlevel

instance abbrev pub risk_eq : Eq RiskClass
risk_eq = record { dec = RiskClass-discrete }

instance abbrev pub role_eq : Eq Role
role_eq = record { dec = Role-discrete }

instance abbrev pub status_eq : Eq TaskStatus
status_eq = record { dec = TaskStatus-discrete }

instance abbrev pub event_type_eq : Eq EventType
event_type_eq = record { dec = EventType-discrete }

-- `.value`
abbrev pub risk_value : RiskClass → String
risk_value r0 = "R0"
risk_value r1 = "R1"
risk_value r2 = "R2"
risk_value r3 = "R3"

abbrev pub role_value : Role → String
role_value system = "system"
role_value validator = "validator"
role_value planner = "planner"
role_value design_reviewer = "design_reviewer"
role_value implementer = "implementer"
role_value patch_reviewer = "patch_reviewer"

abbrev pub status_value : TaskStatus → String
status_value received = "received"
status_value validated = "validated"
status_value planned = "planned"
status_value design_review = "design_review"
status_value implementing = "implementing"
status_value preflight = "preflight"
status_value patch_review = "patch_review"
status_value ready_to_publish = "ready_to_publish"
status_value proposal_ready = "proposal_ready"
status_value rework_required = "rework_required"
status_value blocked = "blocked"
status_value failed = "failed"
status_value completed = "completed"

abbrev pub event_type_value : EventType → String
event_type_value task_received = "task_received"
event_type_value task_transitioned = "task_transitioned"
event_type_value task_blocked = "task_blocked"
event_type_value review_rework_required = "review_rework_required"
event_type_value artifact_registered = "artifact_registered"
event_type_value runner_session_requested = "runner_session_requested"
event_type_value workspace_allocated = "workspace_allocated"
event_type_value workspace_released = "workspace_released"
event_type_value source_ingested = "source_ingested"
