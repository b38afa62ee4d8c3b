-- ===== src/Memory/Queue/Invariant.antt =====
-- infrastructure/memory.py: the records of the queue between calls, and what each call does to them.
use meta_loop.Models.Queue.{QueueFailureResult}
use mathlib.Core.Path.{subst}
use meta_loop.Base.Clock.{Time, seconds}
use meta_loop.Base.Int.{ℤ}
use meta_loop.Base.{
  String, ◌≡◌, IsDict, put, del, true, Each, put-IsDict, del-IsDict, none, ◌⊎◌, inl, some,
  string_eq, ◌≤◌, Each-put, Each-del, arith, get, false, sym, ◌<◌, ◌≢◌, inr, ap, Option-cases,
  Each-get, ◌+◌, err, ok, lease_lost, refl, get-del_self, Bool-cases, leb, Result, get-put_self,
  ℕ_discrete, ◌∙◌,
}
use meta_loop.Memory.Queue.{
  Queue, QueueRecord, is_free, enqueue, claim, owned, heartbeat, complete, fail, retry_delay,
}
use meta_loop.Memory.Queue.Claim.{claim_lem}

-- A record lies under its own key. It is free, without a lease and with at most two attempts behind
-- it, or it is claimed, with a lease and an attempt from 1 to 3.
pub record IsQueued (k : String) (r : QueueRecord) : Type 0 where
  pub own_key : r.task_id ≡ k
  pub free : is_free r.claimed_by ≡ true → (r.lease_expires_at ≡ none) × (r.attempt ≤ 2)
  pub claimed :
      is_free r.claimed_by ≡ false → (r.lease_expires_at ≢ none) × (1 ≤ r.attempt) × (r.attempt ≤ 3)

pub record IsQueue (s : Queue) : Type 0 where
  pub keys_once : IsDict s
  pub items : Each IsQueued s

pub put-IsQueue :
    (k : String) (r : QueueRecord) (s : Queue) → IsQueue s → IsQueued k r → IsQueue (put k r s)
put-IsQueue k r s q h = record {
  keys_once = put-IsDict k r s q.keys_once;
  items = Each-put IsQueued k r s q.items h;
}

pub del-IsQueue : (k : String) (s : Queue) → IsQueue s → IsQueue (del k s)
del-IsQueue k s q = record {
  keys_once = del-IsDict k s q.keys_once;
  items = Each-del IsQueued k s q.items;
}

abbrev fresh : String → ℤ → Time → String → QueueRecord
fresh k p at key = record {
  task_id = k;
  priority = p;
  available_at = at;
  idempotency_key = key;
  claimed_by = none;
  lease_expires_at = none;
  attempt = 0;
}

enqueue-cases :
    (k : String) (p : ℤ) (at : Time) (key : String) (s : Queue)
    → ((enqueue k p at key s).1 ≡ s) ⊎ ((enqueue k p at key s).1 ≡ put k (fresh k p at key) s)
unfolding enqueue
enqueue-cases k p at key s = ground arith

pub enqueue-IsQueue :
    (k : String) (p : ℤ) (at : Time) (key : String) (s : Queue)
    → IsQueue s
    → IsQueue (enqueue k p at key s).1
enqueue-IsQueue k p at key s q = elim (enqueue-cases k p at key s) [
  | inl e ↦ subst IsQueue (sym e) q
  | inr e ↦ subst IsQueue (sym e) (put-IsQueue k (fresh k p at key) s q (ground arith))
]

pub claim-IsQueue :
    (w : String) (now d : Time) (s : Queue) → IsQueue s → IsQueue (claim w now d s).1
claim-IsQueue w now d s q = elim (claim_lem IsQueued w now d s q.items) [
  | inl (_, e, _) ↦ subst IsQueue (sym (ap (λ x. x.1) e)) q
  | inr (r, (k, h, c), _, e) ↦
      subst IsQueue (sym (ap (λ x. x.1) e)) (put-IsQueue r.task_id _ s q (ground arith))
]

-- The record that a worker owns is stored under the key, claimed by the worker, and its lease runs.
pub owned_lem :
    (k w : String) (now : Time) (s : Queue) {r : QueueRecord}
    → owned k w now s ≡ some r
    → (get k s ≡ some r)
      × (r.claimed_by ≡ some w)
      × ((t : Time) × (r.lease_expires_at ≡ some t) × (now < t))
unfolding owned
owned_lem k w now s {r} h = elim (Option-cases r.lease_expires_at) [
  | inl e ↦ absurd (ground arith)
  | inr (t, e) ↦ (ground arith, ground arith, (t, e, ground arith))
]

-- the record that a worker owns is a claimed one
owned-IsQueued :
    (k w : String) (now : Time) (s : Queue) (r : QueueRecord)
    → IsQueue s
    → owned k w now s ≡ some r
    → (r.task_id ≡ k) × (is_free r.claimed_by ≡ false) × (1 ≤ r.attempt) × (r.attempt ≤ 3)
owned-IsQueued k w now s r q h =
    let o = owned_lem k w now s h in
    let i = Each-get IsQueued k s q.items o.0 in
    (i.own_key, ground arith, ground arith, ground arith)

pub heartbeat-IsQueue :
    (k w : String) (now d : Time) (s : Queue) → IsQueue s → IsQueue (heartbeat k w now d s).1
heartbeat-IsQueue k w now d s q = elim (Option-cases (owned k w now s)) [
  | inl e ↦ subst IsQueue (heartbeat_lost e) q
  | inr (r, e) ↦ subst IsQueue (heartbeat_kept r e) (
      put-IsQueue k (record r { lease_expires_at = some (now + d) }) s q
        (let o = owned-IsQueued k w now s r q e in ground arith))
]
  where
    heartbeat_lost : owned k w now s ≡ none → s ≡ (heartbeat k w now d s).1
    heartbeat_lost e = unfold heartbeat in ground arith

    heartbeat_kept :
        (r : QueueRecord)
        → owned k w now s ≡ some r
        → put k (record r { lease_expires_at = some (now + d) }) s ≡ (heartbeat k w now d s).1
    heartbeat_kept r e = unfold heartbeat in ground arith

complete-cases :
    (k w : String) (now : Time) (s : Queue)
    → ((complete k w now s).1 ≡ s) ⊎ ((complete k w now s).1 ≡ del k s)
unfolding complete
complete-cases k w now s = ground arith

pub complete-IsQueue :
    (k w : String) (now : Time) (s : Queue) → IsQueue s → IsQueue (complete k w now s).1
complete-IsQueue k w now s q = elim (complete-cases k w now s) [
  | inl e ↦ subst IsQueue (sym e) q
  | inr e ↦ subst IsQueue (sym e) (del-IsQueue k s q)
]

abbrev pub retried : QueueRecord → Time → QueueRecord
retried r at = record r { claimed_by = none; lease_expires_at = none; available_at = at }

-- What `fail` does on each branch.
pub fail-cases :
    (k w : String) (now : Time) (s : Queue)
    → ((owned k w now s ≡ none) × (fail k w now s ≡ (err lease_lost, s)))
      ⊎ ((r : QueueRecord) × (owned k w now s ≡ some r)
          × (3 ≤ r.attempt)
          × (fail k w now s
              ≡ (ok (record { task_id = k; retry_at = none; terminal = true }), del k s)))
      ⊎ ((r : QueueRecord) × (owned k w now s ≡ some r)
          × (r.attempt < 3)
          × (fail k w now s ≡ (
            ok (record {
              task_id = k;
              retry_at = some (now + retry_delay r.attempt);
              terminal = false;
            }),
            put k (retried r (now + retry_delay r.attempt)) s,
          )))
unfolding fail
fail-cases k w now s = elim (Option-cases (owned k w now s)) [
  | inl e ↦ inl (e, ground arith)
  | inr (r, e) ↦ elim (Bool-cases (leb 3 r.attempt)) [
    | inl b ↦ inr (inl (r, e, ground arith, ground arith))
    | inr b ↦ inr (inr (r, e, ground arith, ground arith))
  ]
]

pub fail-IsQueue : (k w : String) (now : Time) (s : Queue) → IsQueue s → IsQueue (fail k w now s).1
fail-IsQueue k w now s q = elim (fail-cases k w now s) [
  | inl (_, e) ↦ subst IsQueue (sym (ap (λ x. x.1) e)) q
  | inr (inl (r, o, b, e)) ↦ subst IsQueue (sym (ap (λ x. x.1) e)) (del-IsQueue k s q)
  | inr (inr (r, o, b, e)) ↦ subst IsQueue (sym (ap (λ x. x.1) e)) (
      put-IsQueue k (retried r (now + retry_delay r.attempt)) s q
        (let i = owned-IsQueued k w now s r q o in ground arith))
]

delay_first : retry_delay 1 ≡ seconds 30
unfolding retry_delay
delay_first = refl

delay_second : retry_delay 2 ≡ seconds 60
unfolding retry_delay
delay_second = refl

-- the record under a key as it waits again: without a worker and a lease, from a given time on
pub record Waits (k : String) (r : QueueRecord) (at : Time) (s : Queue) : Type 0 where
  pub again : QueueRecord
  pub stored : get k s ≡ some again
  pub unclaimed : again.claimed_by ≡ none
  pub unleased : again.lease_expires_at ≡ none
  pub due : again.available_at ≡ at
  pub attempts : again.attempt ≡ r.attempt
  pub rank : again.priority ≡ r.priority

-- what a failure of the worker comes to
abbrev pub RetriesAt : String → QueueRecord → Time → Result QueueFailureResult × Queue → Type 0
RetriesAt k r at x =
    (x.0 ≡ ok (record { task_id = k; retry_at = some at; terminal = false })) × Waits k r at x.1

retried-Waits :
    (k : String) (r : QueueRecord) (at : Time) (s : Queue) → Waits k r at (put k (retried r at) s)
retried-Waits k r at s = record {
  again = retried r at;
  stored = get-put_self k (retried r at) s;
  unclaimed = refl;
  unleased = refl;
  due = refl;
  attempts = refl;
  rank = refl;
}

fail-RetriesAt :
    (k w : String) (now : Time) (s : Queue) (r : QueueRecord) (at : Time)
    → fail k w now s
      ≡ (ok (record { task_id = k; retry_at = some at; terminal = false }), put k (retried r at) s)
    → RetriesAt k r at (fail k w now s)
fail-RetriesAt k w now s r at e = subst (RetriesAt k r at) (sym e) (refl, retried-Waits k r at s)

-- In a well-formed queue, a worker that fails while its lease runs gets the task retried 30
-- seconds later after the first attempt and 60 seconds later after the second: the record then waits
-- without a worker and a lease, from that time on, with its priority and its attempts. The third
-- failure is final and removes the record. There is no other case.
pub fail_retries :
    (k w : String) (now : Time) (s : Queue) (r : QueueRecord)
    → IsQueue s
    → owned k w now s ≡ some r
    → ((r.attempt ≡ 1) × RetriesAt k r (now + seconds 30) (fail k w now s))
      ⊎ ((r.attempt ≡ 2) × RetriesAt k r (now + seconds 60) (fail k w now s))
      ⊎ ((r.attempt ≡ 3)
          × ((fail k w now s).0 ≡ ok (record { task_id = k; retry_at = none; terminal = true }))
          × (get k (fail k w now s).1 ≡ none))
fail_retries k w now s r q o = elim (fail-cases k w now s) [
  | inl (n, _) ↦ ground (arith, n, o)
  | inr (inl (u, p, b, e)) ↦
      let i = owned-IsQueued k w now s r q o in
      inr (
        inr (
          ground (arith, i, p, o, b),
          ground (arith, e),
          ground (arith, e, get-del_self k s q.keys_once),
        ))
  | inr (inr (u, p, b, e)) ↦
      let i = owned-IsQueued k w now s r q o in
      let m : u ≡ r = ground (arith, p, o) in
      let e' : fail k w now s ≡ (
        ok (record {
          task_id = k;
          retry_at = some (now + retry_delay r.attempt);
          terminal = false;
        }),
        put k (retried r (now + retry_delay r.attempt)) s,
      ) =
        subst
          (λ v. fail k w now s ≡ (
            ok (record {
              task_id = k;
              retry_at = some (now + retry_delay v.attempt);
              terminal = false;
            }),
            put k (retried v (now + retry_delay v.attempt)) s,
          ))
          m e in
      let f = fail-RetriesAt k w now s r (now + retry_delay r.attempt) e' in
      elim (ℕ_discrete r.attempt 1) [
        | yes a ↦ inl (
          a,
          subst (λ t. RetriesAt k r (now + t) (fail k w now s)) (ap retry_delay a ∙ delay_first) f,
        )
        | no a ↦
            let c : r.attempt ≡ 2 = omega (arith, i.2, ap (λ v. v.attempt) m, a, b) in
            inr (
              inl (
                c,
                subst (λ t. RetriesAt k r (now + t) (fail k w now s))
                    (ap retry_delay c ∙ delay_second) f,
              ))
      ]
]

-- A worker that does not hold a running lease on the task gets `LeaseLostError` from
-- `heartbeat`, `complete` and `fail`, and the queue stays as it was.
pub lease_lost_lem :
    (k w : String) (now d : Time) (s : Queue)
    → ((r : QueueRecord) (t : Time)
        → get k s ≡ some r
        → r.claimed_by ≡ some w
        → r.lease_expires_at ≡ some t
        → t ≤ now)
    → (heartbeat k w now d s ≡ (err lease_lost, s))
      × (complete k w now s ≡ (err lease_lost, s))
      × (fail k w now s ≡ (err lease_lost, s))
unfolding heartbeat complete fail
lease_lost_lem k w now d s h = elim (Option-cases (owned k w now s)) [
  | inl e ↦ (ground arith, ground arith, ground arith)
  | inr (r, e) ↦
      let o = owned_lem k w now s e in absurd (omega (arith, h r o.2.0 o.0 o.1 o.2.1, o.2.2))
]
