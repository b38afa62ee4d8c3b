-- ===== src/Memory/Tasks.antt =====
-- infrastructure/memory.py: `InMemoryTaskRepository`.
use meta_loop.Base.Int.{ℤ, ◌+ℤ◌, pos, int_laws, int_eq, pos_part, neg_part}
use meta_loop.Domain.Task.{Task}
use meta_loop.Base.{
  Dict, String, Option, Exec, ok, if◌then◌else◌, Bool, get, List, ◌≡◌, ◌≢◌, string_eq, ◌!=◌, true,
  err, values, ◌↔◌, some, arith, optimistic_conflict, ◌||◌, Option-cases, get-put, create_conflict,
  none, put, ap, inl, inr,
}

abbrev pub Tasks : Type 0
Tasks = Dict String Task

unfoldable pub get_task : String → Exec Tasks (Option Task)
get_task task_id s = (ok (get task_id s), s)

unfoldable pub create_task : Task → Exec Tasks Task
create_task task s =
    if task.version != pos 0 then (err optimistic_conflict, s) else elim (get task.task_id s) [
      | some _ ↦ (err create_conflict, s)
      | none ↦ (ok task, put task.task_id task s)
    ]

-- `current is None or current.version != expected_version or task.version != expected_version + 1`
is_stale : Option Task → Task → ℤ → Bool
is_stale none task expected = true
is_stale (some current) task expected =
    current.version != expected || task.version != expected +ℤ pos 1

unfoldable pub update_task : Task → ℤ → Exec Tasks Task
unfolding is_stale
update_task task expected s =
    if is_stale (get task.task_id s) task expected
    then (err optimistic_conflict, s)
    else (ok task, put task.task_id task s)

unfoldable pub save_task : Task → ℤ → Exec Tasks Task
unfolding create_task update_task
save_task task expected s = elim (get task.task_id s) [
  | none ↦ create_task task s
  | some _ ↦ update_task task expected s
]

unfoldable pub list_tasks : Exec Tasks (List Task)
list_tasks s = (ok (values s), s)

+ℤ-one_ne : (a : ℤ) → a +ℤ pos 1 ≢ a
+ℤ-one_ne a e = omega (int_laws, ap pos_part e, ap neg_part e)

-- An update goes through exactly when the task is stored in the expected version and the new version
-- is one higher.
pub update_task_iff :
    (task : Task) (expected : ℤ) (s : Tasks)
    → ((update_task task expected s).0 ≡ ok task) ↔ (
        (current : Task) × (get task.task_id s ≡ some current)
        × (current.version ≡ expected)
        × (task.version ≡ expected +ℤ pos 1))
unfolding update_task
update_task_iff task expected s = elim (Option-cases (get task.task_id s)) [
  | inl e ↦ ((λ h. ground arith), (λ h. ground arith))
  | inr (c, e) ↦ ((λ h. (c, e, ground arith, ground arith)), (λ h. ground arith))
]

-- No update is lost: after one that goes through the task is stored, and a second update of the same
-- task that expects the same version is refused and changes nothing.
pub update_task_twice :
    (first second : Task) (expected : ℤ) (s : Tasks)
    → first.task_id ≡ second.task_id
    → (update_task first expected s).0 ≡ ok first
    → let s' = (update_task first expected s).1 in
      (get first.task_id s' ≡ some first)
      × (update_task second expected s' ≡ (err optimistic_conflict, s'))
unfolding update_task
update_task_twice first second expected s same h = ground (
  arith,
  get-put first.task_id first.task_id first s,
  get-put first.task_id second.task_id first s,
  +ℤ-one_ne expected,
)

-- A refused call of the repository changes nothing, and a call for one task leaves the others alone.
pub save_task_frame :
    (task : Task) (expected : ℤ) (k : String) (s : Tasks)
    → (((save_task task expected s).0 ≢ ok task) → (save_task task expected s).1 ≡ s)
      × (k ≢ task.task_id → get k (save_task task expected s).1 ≡ get k s)
unfolding save_task
save_task_frame task expected k s =
    (λ h. ground arith, λ h. ground (arith, get-put task.task_id k task s))
