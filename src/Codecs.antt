-- ===== src/Codecs.antt =====
-- serialization/codecs.py: the dictionaries that events and tasks are written as.
use meta_loop.Models.Runner.{refs_to_items}
use meta_loop.Base.Clock.{isoformat}
use meta_loop.Base.Int.{pos}
use meta_loop.Domain.Enums.{event_type_value, risk_value, status_value, role_value}
use meta_loop.Base.Json.{Json, obj, field, str, num, end, text, str_or_null, arr}
use meta_loop.Domain.Task.{TaskSource, RepositoryTarget, RiskAssessment, Task}
use meta_loop.Domain.Event.{Event}

unfoldable pub event_to_dict : Event → Json
event_to_dict e = obj (
    field "event_id" (str e.event_id) (
      field "task_id" (str e.task_id) (
        field "event_type" (str (event_type_value e.event_type)) (
          field "occurred_at" (text (isoformat e.occurred_at)) (
            field "actor" (str (role_value e.actor)) (
              field "payload" (obj e.payload) (
                field "schema_version" (num e.schema_version) (
                  field "causation_id" (str_or_null e.causation_id) (
                    field "correlation_id" (str e.correlation_id)
                      (field "sequence" (num e.sequence) end))))))))))

abbrev pub source_to_dict : TaskSource → Json
source_to_dict s = obj (field "kind" (str s.kind) (field "reference" (str s.reference) end))

abbrev pub repository_to_dict : RepositoryTarget → Json
repository_to_dict r = obj (field "name" (str r.name) (field "revision" (str r.revision) end))

abbrev pub risk_to_dict : RiskAssessment → Json
risk_to_dict r = obj (
    field "proposed" (str (risk_value r.proposed)) (
      field "validated" (str (risk_value r.validated)) (
        field "effective" (str (risk_value r.effective)) (
          field "escalation_reason" (str_or_null r.escalation_reason)
            (field "governance_revision" (str_or_null r.governance_revision) end)))))

unfoldable pub task_to_dict : Task → Json
task_to_dict t = obj (
    field "schema_version" (num (pos 1)) (
      field "task_id" (str t.task_id) (
        field "source" (source_to_dict t.source) (
          field "repository" (repository_to_dict t.repository) (
            field "risk" (risk_to_dict t.risk) (
              field "status" (str (status_value t.status)) (
                field "version" (num t.version) (
                  field "created_at" (text (isoformat t.created_at)) (
                    field "rework_round" (num t.rework_round)
                      (field "artifacts" (arr (refs_to_items t.artifacts)) end))))))))))
