-- ===== src/Domain/Event.antt =====
-- domain/events.py: an append-only fact about a task. The payload is the list of its items in the
-- order of their keys, so that equal lists are equal mappings.
use meta_loop.Base.Clock.{Time}
use meta_loop.Base.Json.{Fields-discrete, Fields}
use meta_loop.Base.{
  String, String-discrete, Eq, Result, guard, ℕ_discrete, is_empty, ◌||◌, validation, Option, ◌!=◌,
  ok,
}
use meta_loop.Base.Int.{ℤ, pos, ltb_ℤ, ℤ-discrete, int_eq}
use meta_loop.Domain.Enums.{EventType, Role}

pub record Event : Type 0 where
  pub event_id : String
  pub task_id : String
  pub event_type : EventType
  pub occurred_at : Time
  pub actor : Role
  pub payload : Fields
  pub schema_version : ℤ
  pub causation_id : Option String
  pub correlation_id : String
  pub sequence : ℤ

unfoldable pub Event-discrete : Discrete Event
unfolding String-discrete ℤ-discrete Fields-discrete ℕ_discrete
Event-discrete = hlevel (String-discrete, ℤ-discrete, Fields-discrete, ℕ_discrete)

instance abbrev pub event_eq : Eq Event
event_eq = record { dec = Event-discrete }

-- `Event(...)` and its `__post_init__`
unfoldable pub new_event : Event → Result Event
new_event e =
    guard
      (is_empty e.event_id
        || is_empty e.task_id
        || is_empty e.correlation_id
        || ltb_ℤ e.sequence (pos 1))
      validation (guard (e.schema_version != pos 1) validation (ok e))
