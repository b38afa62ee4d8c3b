-- ===== src/Memory/Workspaces.antt =====
-- infrastructure/memory.py: `InMemoryWorkspaceLedger`.
use meta_loop.Base.{
  ◌∷◌, Dict, Bool, Exec, String, ◌==◌, get, Option, ◌&&◌, some, ok, none, string_eq, if◌then◌else◌,
  err, ◌!=◌, validation, idempotency_conflict, put, false, any, values, true, list_eq, nat_eq, ◌≡◌,
  arith, [], Option-cases, inr, inl, Bool-cases, get-put_self, refl,
}
use meta_loop.Models.Workspace.{
  active, released, WorkspaceRecord, workspace_id, workspace_request_canonical, workspace_state_eq,
  purpose_eq,
}

abbrev pub Workspaces : Type 0
Workspaces = Dict String WorkspaceRecord

-- an active workspace of the same task for the same purpose
unfoldable pub is_rival : WorkspaceRecord → WorkspaceRecord → Bool
is_rival r value =
    value.state == active
    && value.request.task_id == r.request.task_id
    && value.request.purpose == r.request.purpose

unfoldable pub record_workspace : WorkspaceRecord → Exec Workspaces (WorkspaceRecord × Bool)
unfolding is_rival
record_workspace r s = elim (get (workspace_id r) s) [
  | some current ↦ (
    if workspace_request_canonical current.request != workspace_request_canonical r.request
        then err idempotency_conflict
        else ok (current, false),
    s,
  )
  | none ↦
      if any (is_rival r) (values s)
      then (err idempotency_conflict, s)
      else (ok (r, true), put (workspace_id r) r s)
]

unfoldable pub get_workspace : String → Exec Workspaces (Option WorkspaceRecord)
get_workspace allocation_id s = (ok (get allocation_id s), s)

unfoldable pub release_workspace : String → Exec Workspaces WorkspaceRecord
release_workspace allocation_id s = elim (get allocation_id s) [
  | none ↦ (err validation, s)
  | some current ↦ if current.state == released then (ok current, s) else (
    ok (record current { state = released }),
    put allocation_id (record current { state = released }) s,
  )
]

-- At most one workspace of a task is active for a purpose.
abbrev pub NoRival : WorkspaceRecord → Workspaces → Type 0
NoRival r s = (r.state ≡ active) → any (is_rival r) (values s) ≡ false

abbrev pub IsExclusive : Workspaces → Type 0
IsExclusive [] = Unit
IsExclusive ((k, r) ∷ s) = NoRival r s × IsExclusive s

is_rival_sym :
    (r q : WorkspaceRecord) → q.state ≡ active → is_rival r q ≡ false → is_rival q r ≡ false
unfolding is_rival
is_rival_sym r q a h = ground arith

any-put_rival :
    (q r : WorkspaceRecord) (k : String) (s : Workspaces)
    → get k s ≡ none
    → any (is_rival q) (values s) ≡ false
    → is_rival q r ≡ false
    → any (is_rival q) (values (put k r s)) ≡ false
unfolding get put
any-put_rival q r k [] g h n = ground arith
any-put_rival q r k ((j, x) ∷ s) g h n = ground (arith, any-put_rival q r k s)

put-IsExclusive :
    (k : String) (r : WorkspaceRecord) (s : Workspaces)
    → get k s ≡ none
    → any (is_rival r) (values s) ≡ false
    → IsExclusive s
    → IsExclusive (put k r s)
unfolding get put
put-IsExclusive k r [] g h u = ((λ a. refl), tt)
put-IsExclusive k r ((j, x) ∷ s) g h u =
    ground (arith, put-IsExclusive k r s, any-put_rival x r k s, is_rival_sym r x)

-- a released workspace is nobody's rival
any-put_released :
    (q r : WorkspaceRecord) (k : String) (s : Workspaces)
    → r.state ≡ released
    → any (is_rival q) (values s) ≡ false
    → any (is_rival q) (values (put k r s)) ≡ false
unfolding put is_rival
any-put_released q r k [] e h = ground arith
any-put_released q r k ((j, x) ∷ s) e h = ground (arith, any-put_released q r k s)

put_released-IsExclusive :
    (k : String) (r : WorkspaceRecord) (s : Workspaces)
    → r.state ≡ released
    → IsExclusive s
    → IsExclusive (put k r s)
unfolding put
put_released-IsExclusive k r [] e u = ((λ a. refl), tt)
put_released-IsExclusive k r ((j, x) ∷ s) e u =
    ground (arith, put_released-IsExclusive k r s, any-put_released x r k s)

record_workspace-IsExclusive :
    (r : WorkspaceRecord) (s : Workspaces) → IsExclusive s → IsExclusive (record_workspace r s).1
unfolding record_workspace
record_workspace-IsExclusive r s u = elim (Option-cases (get (workspace_id r) s)) [
  | inr (c, e) ↦ rw (e, record_workspace) u
  | inl e ↦ elim (Bool-cases (any (is_rival r) (values s))) [
    | inl b ↦ rw (e, record_workspace) (rw (b, if◌then◌else◌) u)
    | inr b ↦
        rw (e, record_workspace)
          (rw (b, if◌then◌else◌) (put-IsExclusive (workspace_id r) r s e b u))
  ]
]

release_workspace-IsExclusive :
    (k : String) (s : Workspaces) → IsExclusive s → IsExclusive (release_workspace k s).1
unfolding release_workspace
release_workspace-IsExclusive k s u = elim (Option-cases (get k s)) [
  | inl e ↦ rw (e, release_workspace) u
  | inr (c, e) ↦ elim (Bool-cases (c.state == released)) [
    | inl b ↦ rw (e, release_workspace) (rw (b, if◌then◌else◌) u)
    | inr b ↦
        rw (e, release_workspace)
          (rw (b, if◌then◌else◌)
            (put_released-IsExclusive k (record c { state = released }) s refl u))
  ]
]

release_again :
    (k : String) (s : Workspaces)
    → (release_workspace k (release_workspace k s).1).1 ≡ (release_workspace k s).1
unfolding release_workspace
release_again k s = elim (Option-cases (get k s)) [
  | inl e ↦ ground arith
  | inr (c, e) ↦ ground (arith, get-put_self k (record c { state = released }) s)
]

-- If at most one workspace of a task is active for each purpose, this still holds after a
-- workspace is recorded and after one is released; and a second release of a workspace changes
-- nothing.
pub calls-IsExclusive :
    (r : WorkspaceRecord) (k : String) (s : Workspaces)
    → IsExclusive s
    → IsExclusive (record_workspace r s).1
      × IsExclusive (release_workspace k s).1
      × ((release_workspace k (release_workspace k s).1).1 ≡ (release_workspace k s).1)
calls-IsExclusive r k s u =
    (record_workspace-IsExclusive r s u, release_workspace-IsExclusive k s u, release_again k s)
