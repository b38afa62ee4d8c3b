-- ===== src/Memory/Events.antt =====
-- infrastructure/memory.py: `InMemoryEventStore`.
pub mod Invariant
use meta_loop.Base.Int.{ℤ, pos, ◌+ℤ◌, int_eq}
use meta_loop.Domain.Event.{Event, event_eq}
use meta_loop.Base.{
  Dict, String, List, Exec, get, if◌then◌else◌, ok, some, length, ◌==◌, ◌!=◌, err, ◌||◌,
  idempotency_conflict, string_eq, sequence_conflict, put, ◌++◌, ◌∷◌, [], none,
}

pub record Events : Type 0 where
  pub histories : Dict String (List Event)
  pub event_ids : Dict String Event

-- `self._events.get(task_id, ())`
unfoldable pub history : String → Events → List Event
history task_id s = elim (get task_id s.histories) [ none ↦ [] | some h ↦ h ]

-- `self._events.setdefault(task_id, [])`: the entry stays also where the append is then refused
unfoldable pub set_default : String → Dict String (List Event) → Dict String (List Event)
set_default task_id d = elim (get task_id d) [ none ↦ put task_id [] d | some _ ↦ d ]

unfoldable pub append_new : Event → ℤ → Exec Events Event
unfolding history set_default
append_new e expected s =
    if pos (length (history e.task_id s)) != expected || e.sequence != expected +ℤ pos 1
    then (err sequence_conflict, record s { histories = set_default e.task_id s.histories })
    else (
      ok e,
      record {
        histories =
            put e.task_id (history e.task_id s ++ e ∷ []) (set_default e.task_id s.histories);
        event_ids = put e.event_id e s.event_ids;
      },
    )

unfoldable pub append : Event → ℤ → Exec Events Event
append e expected s = elim (get e.event_id s.event_ids) [
  | some existing ↦ (if existing == e then ok existing else err idempotency_conflict, s)
  | none ↦ append_new e expected s
]

unfoldable pub read : String → Exec Events (List Event)
read task_id s = (ok (history task_id s), s)
