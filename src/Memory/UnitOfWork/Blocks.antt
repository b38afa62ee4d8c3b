-- ===== src/Memory/UnitOfWork/Blocks.antt =====
-- infrastructure/memory.py: whole `with` blocks of `InMemoryUnitOfWork`.
use mathlib.Core.Path.{subst}
use meta_loop.Base.{
  List, ◌∷◌, [], Bool, length, ℕ, false, ◌++◌, ◌≡◌, ◌≢◌, true, some, refl, ◌<◌, arith, suc, ◌∙◌,
  zero, if◌then◌else◌, ap,
}
use meta_loop.Memory.UnitOfWork.{
  Store, UnitOfWork, load, run, exit, write, commit, enter, rollback, visible,
}

-- a statement of a block
pub data Step : Type 0 where
  call : (Store → Store) → Step
  committing : Step
  rolling_back : Step

unfoldable pub step : Step → UnitOfWork → UnitOfWork
step (call f) u = run f u
step committing u = (commit u).1
step rolling_back u = rollback u

unfoldable pub steps : List Step → UnitOfWork → UnitOfWork
steps [] u = u
steps (c ∷ cs) u = steps cs (step c u)

-- `with uow: ...`
unfoldable pub block : List Step → UnitOfWork → UnitOfWork
block cs u = exit (steps cs (enter u))

-- all the calls of a block, in their order
abbrev pub calls : List Step → Store → Store
calls [] s = s
calls (call f ∷ cs) s = calls cs (f s)
calls (committing ∷ cs) s = calls cs s
calls (rolling_back ∷ cs) s = calls cs s

abbrev pub has_commit : List Step → Bool
has_commit [] = false
has_commit (call f ∷ cs) = has_commit cs
has_commit (committing ∷ cs) = true
has_commit (rolling_back ∷ cs) = has_commit cs

load-end : (h : List Store) (s : Store) → load (length h) (h ++ s ∷ []) ≡ some s
unfolding load
load-end [] s = refl
load-end (t ∷ h) s = load-end h s

load-left :
    (h : List Store) (a : ℕ) (s t : Store) → load a h ≡ some s → load a (h ++ t ∷ []) ≡ some s
unfolding load
load-left [] a s t g = cc
load-left (x ∷ h) zero s t g = g
load-left (x ∷ h) (suc a) s t g = load-left h a s t g

load-length : (h : List Store) (a : ℕ) (s : Store) → load a h ≡ some s → a < length h
unfolding load
load-length [] a s g = ground (arith, g)
load-length (x ∷ h) zero s g = omega arith
load-length (x ∷ h) (suc a) s g = let i = load-length h a s g in omega arith

load-write :
    (h : List Store) (a : ℕ) (s t : Store) → load a h ≡ some s → load a (write a t h) ≡ some t
unfolding load write
load-write [] a s t g = cc
load-write (x ∷ h) zero s t g = refl
load-write (x ∷ h) (suc a) s t g = load-write h a s t g

load-write_ne : (h : List Store) (a b : ℕ) (t : Store) → a ≢ b → load b (write a t h) ≡ load b h
unfolding load write
load-write_ne [] a b t n = refl
load-write_ne (x ∷ h) zero zero t n = elim (n refl) [ ]
load-write_ne (x ∷ h) zero (suc b) t n = refl
load-write_ne (x ∷ h) (suc a) zero t n = refl
load-write_ne (x ∷ h) (suc a) (suc b) t n = load-write_ne h a b t (λ e. n (ap suc e))

-- in a block that has not committed yet: `s` is saved, and the stores have `w`
abbrev IsOpen : Store → Store → UnitOfWork → Type 0
IsOpen s w u =
    (u.working ≡ some u.bound)
    × (load u.bound u.heap ≡ some w)
    × (u.bound ≢ u.saved)
    × (load u.saved u.heap ≡ some s)

-- in a block that has committed: what the stores have is what is saved
abbrev IsJoined : Store → UnitOfWork → Type 0
IsJoined w u = (u.working ≡ some u.bound) × (load u.bound u.heap ≡ some w) × (u.bound ≡ u.saved)

enter-IsOpen : (s : Store) (u : UnitOfWork) → load u.saved u.heap ≡ some s → IsOpen s s (enter u)
unfolding enter
enter-IsOpen s u g =
    rw (g, enter)
      (
        refl,
        load-end u.heap s,
        (λ e. let l = load-length u.heap u.saved s g in omega arith),
        load-left u.heap u.saved s s g,
      )

run-IsOpen :
    (f : Store → Store) (s w : Store) (u : UnitOfWork) → IsOpen s w u → IsOpen s (f w) (run f u)
unfolding run
run-IsOpen f s w u (a, g, n, h) =
    rw (g, run)
      (a, load-write u.heap u.bound w (f w) g, n, load-write_ne u.heap u.bound u.saved (f w) n ∙ h)

run-IsJoined :
    (f : Store → Store) (w : Store) (u : UnitOfWork) → IsJoined w u → IsJoined (f w) (run f u)
unfolding run
run-IsJoined f w u (a, g, e) = rw (g, run) (a, load-write u.heap u.bound w (f w) g, e)

commit-IsJoined :
    (w : Store) (u : UnitOfWork)
    → u.working ≡ some u.bound
    → load u.bound u.heap ≡ some w
    → IsJoined w (commit u).1
unfolding commit
commit-IsJoined w u a g = rw (a, commit) (a, g, refl)

joined_steps :
    (cs : List Step) (w : Store) (u : UnitOfWork)
    → IsJoined w u
    → visible (exit (steps cs u)) ≡ some (calls cs w)
unfolding steps step visible exit rollback
joined_steps [] w u (a, g, e) = subst (λ x. load x u.heap ≡ some w) e g
joined_steps (call f ∷ cs) w u h = joined_steps cs (f w) (run f u) (run-IsJoined f w u h)
joined_steps (committing ∷ cs) w u (a, g, e) =
    joined_steps cs w (commit u).1 (commit-IsJoined w u a g)
joined_steps (rolling_back ∷ cs) w u h = joined_steps cs w u h

open_steps :
    (cs : List Step) (s w : Store) (u : UnitOfWork)
    → IsOpen s w u
    → visible (exit (steps cs u)) ≡ some (if has_commit cs then calls cs w else s)
unfolding steps step visible exit rollback
open_steps [] s w u (a, g, n, h) = h
open_steps (call f ∷ cs) s w u h = open_steps cs s (f w) (run f u) (run-IsOpen f s w u h)
open_steps (committing ∷ cs) s w u (a, g, n, h) =
    joined_steps cs w (commit u).1 (commit-IsJoined w u a g)
open_steps (rolling_back ∷ cs) s w u h = open_steps cs s w u h

-- A block is all or nothing. After it the stores have what was saved before it, if no statement of
-- the block commits. If one commits, they have the result of all the block's calls, of those after
-- the commit too, and a rollback changes neither.
pub block_lem :
    (cs : List Step) (s : Store) (u : UnitOfWork)
    → load u.saved u.heap ≡ some s
    → visible (block cs u) ≡ some (if has_commit cs then calls cs s else s)
unfolding block
block_lem cs s u g = open_steps cs s s (enter u) (enter-IsOpen s u g)
