-- ===== src/Memory/Queue.antt =====
-- infrastructure/memory.py: `InMemoryTaskQueue`. A lease's duration is not negative.
pub mod Claim
pub mod Invariant
pub mod Recovery
use Prim.Native.Nat.{min}
use meta_loop.Base.Int.{ℤ, ltb_ℤ, leb_ℤ, int_eq}
use meta_loop.Base.{
  String, Dict, Option, Bool, List, ℕ, Exec, true, leb, ltb, ◌∷◌, none, keep, get, false,
  if◌then◌else◌, some, ok, ◌==◌, ◌&&◌, [], values, ◌+◌, ◌!=◌, err, del, idempotency_conflict, ◌||◌,
  put, lease_lost, string_eq, option_eq, nat_eq, ◌*◌, ◌^◌, ◌-◌,
}
use meta_loop.Base.Clock.{Time, seconds}
use meta_loop.Models.Queue.{Lease, QueueEnqueueResult, QueueCompletionResult, QueueFailureResult}

-- `_QueueRecord`
pub record QueueRecord : Type 0 where
  pub task_id : String
  pub priority : ℤ
  pub available_at : Time
  pub idempotency_key : String
  pub claimed_by : Option String
  pub lease_expires_at : Option Time
  pub attempt : ℕ

abbrev pub Queue : Type 0
Queue = Dict String QueueRecord

unfoldable pub enqueue : String → ℤ → Time → String → Exec Queue QueueEnqueueResult
enqueue task_id priority available_at key s = elim (get task_id s) [
  | some current ↦ (
    if current.idempotency_key == key
          && current.priority == priority
          && current.available_at == available_at
        then ok (record { task_id = task_id; created = false })
        else err idempotency_conflict,
    s,
  )
  | none ↦ (
    ok (record { task_id = task_id; created = true }),
    put task_id
        (record {
          task_id = task_id;
          priority = priority;
          available_at = available_at;
          idempotency_key = key;
          claimed_by = none;
          lease_expires_at = none;
          attempt = 0;
        })
        s,
  )
]

abbrev pub is_free : Option String → Bool
is_free none = true
is_free (some _) = false

-- `record.available_at <= now and record.claimed_by is None`
abbrev pub is_candidate : Time → QueueRecord → Bool
is_candidate now r = leb r.available_at now && is_free r.claimed_by

-- `a` before `b` by the key `(-priority, available_at)`
abbrev pub is_before : QueueRecord → QueueRecord → Bool
is_before a b =
    ltb_ℤ b.priority a.priority
    || (leb_ℤ a.priority b.priority
        && leb_ℤ b.priority a.priority
        && ltb a.available_at b.available_at)

-- Python's `sorted` is stable: records with equal keys stay in their order.
insert_sorted : QueueRecord → List QueueRecord → List QueueRecord
insert_sorted r [] = r ∷ []
insert_sorted r (q ∷ qs) = if is_before q r then q ∷ insert_sorted r qs else r ∷ q ∷ qs

sorted : List QueueRecord → List QueueRecord
unfolding insert_sorted
sorted [] = []
sorted (r ∷ rs) = insert_sorted r (sorted rs)

-- `sorted(candidates, …)[0]`, or nothing without candidates
first : List QueueRecord → Option QueueRecord
first [] = none
first (r ∷ rs) = some r

pub pick : Time → Queue → Option QueueRecord
unfolding first sorted
pick now s = first (sorted (keep (is_candidate now) (values s)))

unfoldable pub claim : String → Time → Time → Exec Queue (Option Lease)
claim worker_id now lease_duration s = elim (pick now s) [
  | none ↦ (ok none, s)
  | some r ↦ (
    ok (
        some (record {
          task_id = r.task_id;
          worker_id = worker_id;
          expires_at = now + lease_duration;
          attempt = r.attempt + 1;
        })),
    put r.task_id
        (record r {
          claimed_by = some worker_id;
          lease_expires_at = some (now + lease_duration);
          attempt = r.attempt + 1;
        })
        s,
  )
]

-- `lease_expires_at is None or lease_expires_at <= now`
lease_over : Option Time → Time → Bool
lease_over none now = true
lease_over (some t) now = leb t now

-- the record, if the worker owns it and its lease runs
unfoldable pub owned : String → String → Time → Queue → Option QueueRecord
unfolding lease_over
owned task_id worker_id now s = elim (get task_id s) [
  | none ↦ none
  | some r ↦
      if r.claimed_by != some worker_id || lease_over r.lease_expires_at now then none else some r
]

unfoldable pub heartbeat : String → String → Time → Time → Exec Queue Lease
heartbeat task_id worker_id now lease_duration s = elim (owned task_id worker_id now s) [
  | none ↦ (err lease_lost, s)
  | some r ↦ (
    ok (record {
      task_id = task_id;
      worker_id = worker_id;
      expires_at = now + lease_duration;
      attempt = r.attempt;
    }),
    put task_id (record r { lease_expires_at = some (now + lease_duration) }) s,
  )
]

unfoldable pub complete : String → String → Time → Exec Queue QueueCompletionResult
complete task_id worker_id now s = elim (owned task_id worker_id now s) [
  | none ↦ (err lease_lost, s)
  | some r ↦ (ok (record { task_id = task_id; terminal = true }), del task_id s)
]

-- `min(30 * (2 ** (attempt - 1)), 900)` seconds; a claimed record has an attempt of 1 or more
unfoldable pub retry_delay : ℕ → Time
retry_delay attempt = seconds (min (30 * 2 ^ (attempt - 1)) 900)

-- `fail`; the error text is not stored
unfoldable pub fail : String → String → Time → Exec Queue QueueFailureResult
fail task_id worker_id now s = elim (owned task_id worker_id now s) [
  | none ↦ (err lease_lost, s)
  | some r ↦
      if leb 3 r.attempt
      then (ok (record { task_id = task_id; retry_at = none; terminal = true }), del task_id s)
      else (
        ok (record {
          task_id = task_id;
          retry_at = some (now + retry_delay r.attempt);
          terminal = false;
        }),
        put task_id
            (record r {
              claimed_by = none;
              lease_expires_at = none;
              available_at = now + retry_delay r.attempt;
            })
            s,
      )
]

-- `lease_expires_at is not None and lease_expires_at <= now`
abbrev pub has_expired : Option Time → Time → Bool
has_expired none now = false
has_expired (some t) now = leb t now

-- one round of the loop of `recover_expired`: the result, if any, and the dictionary
unfoldable pub recover_one : Time → String → QueueRecord → Queue → Option QueueFailureResult × Queue
recover_one now task_id r s =
    if has_expired r.lease_expires_at now
    then (if leb 3 r.attempt
        then (some (record { task_id = task_id; retry_at = none; terminal = true }), del task_id s)
        else (
          some (record { task_id = task_id; retry_at = some now; terminal = false }),
          put task_id (record r { claimed_by = none; lease_expires_at = none; available_at = now })
              s,
        ))
    else (none, s)

abbrev cons_some : Option QueueFailureResult → List QueueFailureResult → List QueueFailureResult
cons_some none rs = rs
cons_some (some r) rs = r ∷ rs

-- the loop over `list(self._records.items())`, which is taken before the first round
recover_all : Time → Queue → Queue → List QueueFailureResult × Queue
recover_all now [] s = ([], s)
recover_all now ((task_id, r) ∷ items) s =
    let (result, s') = recover_one now task_id r s in
    let (results, s'') = recover_all now items s' in (cons_some result results, s'')

unfoldable pub recover_expired : Time → Exec Queue (List QueueFailureResult)
unfolding recover_all
recover_expired now s = let (results, s') = recover_all now s s in (ok results, s')
