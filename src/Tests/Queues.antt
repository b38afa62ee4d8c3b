-- ===== src/Tests/Queues.antt =====
-- Tests of the queue.
use meta_loop.Base.Clock.{seconds}
use meta_loop.Memory.Queue.{fail}
use meta_loop.Base.Int.{pos}
use meta_loop.Memory.Queue.Recovery.{
  after_all, enqueue_call, recover_expired_done, claim_call, after_all-IsQueue,
}
use meta_loop.Memory.Queue.Invariant.{IsQueue, lease_lost_lem, fail_retries, RetriesAt}
use meta_loop.Tests.Data.{leased, waiting}
use meta_loop.Base.{
  get, ◌≡◌, ◌∷◌, arith, String-discrete, [], Option-discrete, err, false, refl, ok, lease_lost, put,
  some, string_eq, ◌+◌, ◌⊎◌, none, true,
}
use meta_loop.Memory.Queue.Claim.{ClaimOutcome, claim_lem}
use meta_loop.Memory.Queue.{
  Queue, owned, QueueRecord, recover_expired, has_expired, heartbeat, recover_one, complete,
}

abbrev two_waiting : Queue
two_waiting = ("A", waiting "A" (pos 1) 0) ∷ ("B", waiting "B" (pos 2) 5) ∷ []

claim_lem_example : ClaimOutcome (λ k r. r.task_id ≡ k) "W-1" 10 60 two_waiting
claim_lem_example = claim_lem (λ k r. r.task_id ≡ k) "W-1" 10 60 two_waiting (refl, (refl, tt))

abbrev one_leased : Queue
one_leased = ("A", leased "A" 50 3) ∷ []

one_leased-IsQueue : IsQueue one_leased
unfolding get
one_leased-IsQueue = record {
  keys_once = (refl, tt);
  items = (
    record { own_key = refl; free = λ e. cc; claimed = λ e. (λ n. cc, omega arith, omega arith) },
    tt,
  );
}

holds : owned "A" "W-1" 20 one_leased ≡ some (leased "A" 50 3)
unfolding owned get String-discrete Option-discrete
holds = ground arith

fail_retries_example :
    (((leased "A" 50 3).attempt ≡ 1)
      × RetriesAt "A" (leased "A" 50 3) (20 + seconds 30) (fail "A" "W-1" 20 one_leased))
    ⊎ (((leased "A" 50 3).attempt ≡ 2)
        × RetriesAt "A" (leased "A" 50 3) (20 + seconds 60) (fail "A" "W-1" 20 one_leased))
    ⊎ (((leased "A" 50 3).attempt ≡ 3)
        × ((fail "A" "W-1" 20 one_leased).0
            ≡ ok (record { task_id = "A"; retry_at = none; terminal = true }))
        × (get "A" (fail "A" "W-1" 20 one_leased).1 ≡ none))
fail_retries_example =
    fail_retries "A" "W-1" 20 one_leased (leased "A" 50 3) one_leased-IsQueue holds

lease_lost_lem_example :
    (heartbeat "A" "W-1" 60 30 one_leased ≡ (err lease_lost, one_leased))
    × (complete "A" "W-1" 60 one_leased ≡ (err lease_lost, one_leased))
    × (fail "A" "W-1" 60 one_leased ≡ (err lease_lost, one_leased))
unfolding get
lease_lost_lem_example = lease_lost_lem "A" "W-1" 60 30 one_leased (λ r t g c e. ground arith)

abbrev after_recovery : Queue
after_recovery = (recover_expired 20 (("A", leased "A" 10 1) ∷ [])).1

expired-IsQueue : IsQueue (("A", leased "A" 10 1) ∷ [])
unfolding get
expired-IsQueue = record {
  keys_once = (refl, tt);
  items = (
    record { own_key = refl; free = λ e. cc; claimed = λ e. (λ n. cc, omega arith, omega arith) },
    tt,
  );
}

abbrev recovered : QueueRecord
recovered = record (waiting "A" (pos 0) 20) { attempt = 1 }

found : get "A" after_recovery ≡ some recovered
unfolding recover_expired get String-discrete recover_one put
found = ground arith

recover_expired_done_example : has_expired recovered.lease_expires_at 20 ≡ false
recover_expired_done_example =
    recover_expired_done 20 (("A", leased "A" 10 1) ∷ []) expired-IsQueue "A" recovered found

after_all-IsQueue_example :
    IsQueue (after_all (enqueue_call "A" (pos 1) 0 "A" ∷ claim_call "W-1" 10 60 ∷ []) [])
after_all-IsQueue_example =
    after_all-IsQueue (enqueue_call "A" (pos 1) 0 "A" ∷ claim_call "W-1" 10 60 ∷ [])
