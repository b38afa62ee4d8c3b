-- ===== src/Memory/UnitOfWork.antt =====
-- infrastructure/memory.py: `InMemoryUnitOfWork`.
pub mod Blocks
use meta_loop.Memory.Observations.{Observations}
use meta_loop.Memory.Effects.{Effects}
use meta_loop.Memory.Approvals.{Approvals}
use meta_loop.Memory.Publications.{Publications}
use meta_loop.Memory.Workspaces.{Workspaces}
use meta_loop.Memory.Sessions.{Sessions, Results}
use meta_loop.Memory.Ledgers.{Intakes, Ingestions, Catalog}
use meta_loop.Models.Queue.{FuseState, ControlEvent}
use meta_loop.Memory.Queue.{Queue}
use meta_loop.Memory.Events.{Events}
use meta_loop.Base.{
  List, ℕ, [], ◌∷◌, none, Exec, Option, false, some, err, ◌++◌, other_error, length, ok, suc, zero,
}
use meta_loop.Memory.Tasks.{Tasks}

-- The dictionaries and lists that a unit of work keeps, as one.
pub record Store : Type 0 where
  pub tasks : Tasks
  pub events : Events
  pub queue : Queue
  pub fuse : FuseState
  pub intakes : Intakes
  pub ingestions : Ingestions
  pub control_events : List ControlEvent
  pub artifacts : Catalog
  pub runner_sessions : Sessions
  pub worker_results : Results
  pub workspaces : Workspaces
  pub publications : Publications
  pub approvals : Approvals
  pub effects : Effects
  pub observations : Observations

-- Python's objects: `self._tasks` and its fellows (saved), `self._working_tasks` and its fellows
-- (working, none before the first `with`) and what the stores were bound to last (bound) are
-- addresses of the heap, which has the dictionaries' contents. Two of them may be the same.
pub record UnitOfWork : Type 0 where
  pub heap : List Store
  pub saved : ℕ
  pub working : Option ℕ
  pub bound : ℕ

unfoldable pub load : ℕ → List Store → Option Store
load a [] = none
load zero (s ∷ h) = some s
load (suc a) (s ∷ h) = load a h

unfoldable pub write : ℕ → Store → List Store → List Store
write a t [] = []
write zero t (s ∷ h) = t ∷ h
write (suc a) t (s ∷ h) = s ∷ write a t h

abbrev pub empty_store : Store
empty_store = record {
  tasks = [];
  events = record { histories = []; event_ids = [] };
  queue = [];
  fuse = record { engaged = false; changed_at = 0; governance_revision = none };
  intakes = [];
  ingestions = [];
  control_events = [];
  artifacts = [];
  runner_sessions = [];
  worker_results = [];
  workspaces = [];
  publications = [];
  approvals = [];
  effects = [];
  observations = [];
}

-- `InMemoryUnitOfWork()`
abbrev pub new_unit : UnitOfWork
new_unit = record { heap = empty_store ∷ []; saved = 0; working = none; bound = 0 }

-- `__enter__`: the saved dictionaries are copied to new ones, and the stores bound to these
unfoldable pub enter : UnitOfWork → UnitOfWork
enter u = elim (load u.saved u.heap) [
  | none ↦ u
  | some s ↦ record u {
    heap = u.heap ++ s ∷ [];
    working = some (length u.heap);
    bound = length u.heap;
  }
]

-- `commit`: the working dictionaries become the saved ones, the same objects. Before the first
-- `with` there are none, and Python raises `AttributeError`.
unfoldable pub commit : Exec UnitOfWork Unit
commit u = elim u.working [ none ↦ (err other_error, u) | some a ↦ (ok tt, record u { saved = a }) ]

-- `rollback`: nothing reads the flag that it resets
unfoldable pub rollback : UnitOfWork → UnitOfWork
rollback u = u

-- `__exit__`: the stores are bound to the saved dictionaries
unfoldable pub exit : UnitOfWork → UnitOfWork
exit u = record u { bound = u.saved }

-- a call on the stores, which writes to the dictionaries they are bound to
unfoldable pub run : (Store → Store) → UnitOfWork → UnitOfWork
run f u = elim (load u.bound u.heap) [
  | none ↦ u
  | some s ↦ record u { heap = write u.bound (f s) u.heap }
]

-- what a caller finds in the stores
unfoldable pub visible : UnitOfWork → Option Store
visible u = load u.bound u.heap
