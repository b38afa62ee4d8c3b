-- ===== src/Memory/Queue/Recovery.antt =====
-- infrastructure/memory.py: `recover_expired`, and all calls of the queue together.
use mathlib.Core.Path.{subst}
use meta_loop.Base.Int.{ℤ}
use meta_loop.Base.{
  String, get, List, ◌≡◌, inl, Each, IsDict, ◌∷◌, [], false, some, none, string_eq, ◌⊎◌, sym, true,
  arith, Bool-cases, del, inr, ap, put, get-del, ◌<◌, get-put,
}
use meta_loop.Base.Clock.{Time}
use meta_loop.Memory.Queue.{
  Queue, QueueRecord, enqueue, claim, heartbeat, complete, fail, has_expired, recover_one,
  recover_expired, recover_all,
}
use meta_loop.Memory.Queue.Invariant.{
  IsQueue, IsQueued, put-IsQueue, del-IsQueue, enqueue-IsQueue, claim-IsQueue, heartbeat-IsQueue,
  complete-IsQueue, fail-IsQueue, retried,
}

-- what one round does
recover_one-cases :
    (now : Time) (k : String) (r : QueueRecord) (s : Queue)
    → (((recover_one now k r s).1 ≡ s) × (has_expired r.lease_expires_at now ≡ false))
      ⊎ ((recover_one now k r s).1 ≡ del k s)
      ⊎ (((recover_one now k r s).1 ≡ put k (retried r now) s) × (r.attempt < 3))
unfolding recover_one
recover_one-cases now k r s = ground arith

recover_one-IsQueue :
    (now : Time) (k : String) (r : QueueRecord) (s : Queue)
    → IsQueue s
    → IsQueued k r
    → IsQueue (recover_one now k r s).1
recover_one-IsQueue now k r s q h = elim (recover_one-cases now k r s) [
  | inl (e, _) ↦ subst IsQueue (sym e) q
  | inr (inl e) ↦ subst IsQueue (sym e) (del-IsQueue k s q)
  | inr (inr (e, b)) ↦ subst IsQueue (sym e) (put-IsQueue k (retried r now) s q (ground arith))
]

recover_all-IsQueue :
    (now : Time) (items s : Queue)
    → Each IsQueued items
    → IsQueue s
    → IsQueue (recover_all now items s).1
unfolding recover_all
recover_all-IsQueue now [] s h q = q
recover_all-IsQueue now ((k, r) ∷ items) s (h, hs) q =
    recover_all-IsQueue now items (recover_one now k r s).1 hs (recover_one-IsQueue now k r s q h)

-- Leases that are over belong to keys that are still to come.
abbrev Pending : Time → Queue → Queue → Type 0
Pending now items s =
    (k : String) (r : QueueRecord)
    → get k s ≡ some r
    → has_expired r.lease_expires_at now ≡ true
    → get k items ≡ some r

-- The rest of the items are stored as they were.
abbrev Untouched : Queue → Queue → Type 0
Untouched items s = (k : String) (r : QueueRecord) → get k items ≡ some r → get k s ≡ some r

Pending-step :
    (now : Time) (k : String) (r : QueueRecord) (items s : Queue)
    → IsDict s
    → get k items ≡ none
    → Pending now ((k, r) ∷ items) s
    → Untouched ((k, r) ∷ items) s
    → Pending now items (recover_one now k r s).1
unfolding get
Pending-step now k r items s d fresh p u j q g x = elim (recover_one-cases now k r s) [
  | inl (e, b) ↦ ground (arith, p j q, ap (get j) e, u k r)
  | inr (inl e) ↦ ground (arith, p j q, ap (get j) e, get-del k j s d)
  | inr (inr (e, b)) ↦ ground (arith, p j q, ap (get j) e, get-put k j (retried r now) s)
]

Untouched-step :
    (now : Time) (k : String) (r : QueueRecord) (items s : Queue)
    → IsDict s
    → get k items ≡ none
    → Untouched ((k, r) ∷ items) s
    → Untouched items (recover_one now k r s).1
unfolding get
Untouched-step now k r items s d fresh u j q g = elim (recover_one-cases now k r s) [
  | inl (e, b) ↦ ground (arith, u j q, ap (get j) e)
  | inr (inl e) ↦ ground (arith, u j q, ap (get j) e, get-del k j s d)
  | inr (inr (e, b)) ↦ ground (arith, u j q, ap (get j) e, get-put k j (retried r now) s)
]

recover_all-done :
    (now : Time) (items s : Queue)
    → IsDict items
    → Each IsQueued items
    → IsQueue s
    → Pending now items s
    → Untouched items s
    → (k : String) (r : QueueRecord) → get k (recover_all now items s).1 ≡ some r
    → has_expired r.lease_expires_at now ≡ false
unfolding recover_all
recover_all-done now [] s d h q p u k r g = elim (Bool-cases (has_expired r.lease_expires_at now)) [
  | inl x ↦ absurd (empty (p k r g x))
  | inr x ↦ x
]
  where
    empty : get k [] ≡ some r → ⊥
    empty e = unfold get in cc
recover_all-done now ((i, x) ∷ items) s (f, d) (h, hs) q p u k r g =
    recover_all-done now items (recover_one now i x s).1 d hs (recover_one-IsQueue now i x s q h)
      (Pending-step now i x items s q.keys_once f p u)
      (Untouched-step now i x items s q.keys_once f u) k r g

-- After `recover_expired` on a well-formed queue no stored lease is over.
pub recover_expired_done :
    (now : Time) (s : Queue)
    → IsQueue s
    → (k : String) (r : QueueRecord) → get k (recover_expired now s).1 ≡ some r
    → has_expired r.lease_expires_at now ≡ false
unfolding recover_expired
recover_expired_done now s q k r g =
    recover_all-done now s s q.keys_once q.items q (λ k r g x. g) (λ k r g. g) k r g

-- The calls of the queue.
pub data Call : Type 0 where
  enqueue_call : String → ℤ → Time → String → Call
  claim_call : String → Time → Time → Call
  heartbeat_call : String → String → Time → Time → Call
  complete_call fail_call : String → String → Time → Call
  recover_call : Time → Call

-- the queue after a call, whether it returned or raised
unfoldable pub after : Call → Queue → Queue
after (enqueue_call k p at key) s = (enqueue k p at key s).1
after (claim_call w now d) s = (claim w now d s).1
after (heartbeat_call k w now d) s = (heartbeat k w now d s).1
after (complete_call k w now) s = (complete k w now s).1
after (fail_call k w now) s = (fail k w now s).1
after (recover_call now) s = (recover_expired now s).1

unfoldable pub after_all : List Call → Queue → Queue
unfolding after
after_all [] s = s
after_all (c ∷ cs) s = after_all cs (after c s)

after-IsQueue : (c : Call) (s : Queue) → IsQueue s → IsQueue (after c s)
unfolding after recover_expired
after-IsQueue (enqueue_call k p at key) s q = enqueue-IsQueue k p at key s q
after-IsQueue (claim_call w now d) s q = claim-IsQueue w now d s q
after-IsQueue (heartbeat_call k w now d) s q = heartbeat-IsQueue k w now d s q
after-IsQueue (complete_call k w now) s q = complete-IsQueue k w now s q
after-IsQueue (fail_call k w now) s q = fail-IsQueue k w now s q
after-IsQueue (recover_call now) s q = recover_all-IsQueue now s s q.items q

after_all-keeps : (cs : List Call) (s : Queue) → IsQueue s → IsQueue (after_all cs s)
unfolding after_all
after_all-keeps [] s q = q
after_all-keeps (c ∷ cs) s q = after_all-keeps cs (after c s) (after-IsQueue c s q)

-- Whatever calls an empty queue has gone through, in any order and whether they were refused or not:
-- each task has one record, under its own key, either free with at most two attempts or claimed
-- with a lease and an attempt from 1 to 3.
pub after_all-IsQueue : (cs : List Call) → IsQueue (after_all cs [])
after_all-IsQueue cs = after_all-keeps cs [] (record { keys_once = tt; items = tt })
