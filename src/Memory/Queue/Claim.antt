-- ===== src/Memory/Queue/Claim.antt =====
-- infrastructure/memory.py: `claim` takes the best record that waits, and no other call gets it.
use meta_loop.Base.Int.{◌≤ℤ◌}
use meta_loop.Base.Clock.{Time}
use mathlib.Core.Path.{subst}
use meta_loop.Base.{
  List, ◌≡◌, All, false, true, [], arith, ◌∷◌, some, ◌⊎◌, inl, Bool-cases, inr, refl, none, ◌≢◌,
  String, sym, Each, keep, values, ok, ◌+◌, put, Option-cases, string_eq, ◌≤◌,
}
use meta_loop.Memory.Queue.{
  Queue, QueueRecord, is_candidate, is_before, pick, insert_sorted, sorted, first, claim,
}

-- no record of the list comes before `r`
abbrev IsLeast : QueueRecord → List QueueRecord → Type 0
IsLeast r = All (λ q. is_before q r ≡ false)

before_trans :
    (q y x : QueueRecord) → is_before q y ≡ false → is_before y x ≡ false → is_before q x ≡ false
before_trans q y x h k = ground arith

before_asym : (q x : QueueRecord) → is_before q x ≡ true → is_before x q ≡ false
before_asym q x h = ground arith

before_irrefl : (x : QueueRecord) → is_before x x ≡ false
before_irrefl x = ground arith

IsLeast-trans :
    (y x : QueueRecord) (qs : List QueueRecord)
    → IsLeast y qs
    → is_before y x ≡ false
    → IsLeast x qs
IsLeast-trans y x [] h k = tt
IsLeast-trans y x (q ∷ qs) h k = (before_trans q y x h.0 k, IsLeast-trans y x qs h.1 k)

insert_sorted-first :
    (x : QueueRecord) (qs : List QueueRecord) (y : QueueRecord)
    → first (insert_sorted x qs) ≡ some y
    → ((first qs ≡ none) × (y ≡ x))
      ⊎ ((first qs ≡ some y) × (is_before y x ≡ true))
      ⊎ ((z : QueueRecord) × (first qs ≡ some z) × (is_before z x ≡ false) × (y ≡ x))
unfolding insert_sorted first
insert_sorted-first x [] y h = inl (refl, ground arith)
insert_sorted-first x (q ∷ qs) y h = elim (Bool-cases (is_before q x)) [
  | inl b ↦ inr (inl (ground arith, ground arith))
  | inr b ↦ inr (inr (q, refl, b, ground arith))
]

insert_sorted-ne_none :
    (x : QueueRecord) (qs : List QueueRecord) → first (insert_sorted x qs) ≢ none
unfolding insert_sorted first
insert_sorted-ne_none x [] h = ground arith
insert_sorted-ne_none x (q ∷ qs) h = ground arith

no_first : (rs : List QueueRecord) → first (sorted rs) ≡ none → rs ≡ []
unfolding sorted
no_first [] h = refl
no_first (r ∷ rs) h = absurd (insert_sorted-ne_none r (sorted rs) h)

sorted-first-IsLeast :
    (rs : List QueueRecord) (y : QueueRecord) → first (sorted rs) ≡ some y → IsLeast y rs
unfolding sorted first
sorted-first-IsLeast [] y h = tt
sorted-first-IsLeast (r ∷ rs) y h = elim (insert_sorted-first r (sorted rs) y h) [
  | inl (e, p) ↦
      subst (λ z. IsLeast z (r ∷ rs)) (sym p)
        (before_irrefl r, subst (IsLeast r) (sym (no_first rs e)) tt)
  | inr (inl (e, b)) ↦ (before_asym y r b, sorted-first-IsLeast rs y e)
  | inr (inr (z, e, b, p)) ↦
      subst (λ z. IsLeast z (r ∷ rs)) (sym p)
        (before_irrefl r, IsLeast-trans z r rs (sorted-first-IsLeast rs z e) b)
]

-- what holds of every record of a list holds of the first one in order
sorted_first-All :
    (P : QueueRecord → Type 0) (rs : List QueueRecord) (y : QueueRecord)
    → All P rs
    → first (sorted rs) ≡ some y
    → P y
unfolding sorted first
sorted_first-All P [] y a h = cc
sorted_first-All P (r ∷ rs) y a h = elim (insert_sorted-first r (sorted rs) y h) [
  | inl (e, p) ↦ subst P (sym p) a.0
  | inr (inl (e, b)) ↦ sorted_first-All P rs y a.1 e
  | inr (inr (z, e, b, p)) ↦ subst P (sym p) a.0
]

-- the candidates are items of the dictionary that pass the test
candidates-All :
    (P : String → QueueRecord → Type 0) (now : Time) (s : Queue)
    → Each P s
    → All
        (λ r. (k : String) × P k r × (is_candidate now r ≡ true))
        (keep (is_candidate now) (values s))
candidates-All P now [] h = tt
candidates-All P now ((k, r) ∷ s) h = elim (Bool-cases (is_candidate now r)) [
  | inl c ↦ rw c ((k, h.0, c), candidates-All P now s h.1)
  | inr c ↦ rw c (candidates-All P now s h.1)
]

-- `q` has no higher priority than `r`, and at the same priority it is not due before `r`
abbrev pub ComesNoSooner : QueueRecord → QueueRecord → Type 0
ComesNoSooner q r =
    (q.priority ≤ℤ r.priority) × (q.priority ≡ r.priority → r.available_at ≤ q.available_at)

not_before : (q r : QueueRecord) → is_before q r ≡ false → ComesNoSooner q r
not_before q r h = (ground arith, λ e. ground (arith, e, h))

-- an item that passes the test is among the candidates
candidates_least :
    (now : Time) (s : Queue) (y : QueueRecord)
    → IsLeast y (keep (is_candidate now) (values s))
    → Each (λ k q. is_candidate now q ≡ true → ComesNoSooner q y) s
candidates_least now [] y h = tt
candidates_least now ((k, r) ∷ s) y h = elim (Bool-cases (is_candidate now r)) [
  | inl c ↦
      let l : IsLeast y (r ∷ keep (is_candidate now) (values s)) = rw c at h in
      ((λ _. not_before r y l.0), candidates_least now s y l.1)
  | inr c ↦
      let l : IsLeast y (keep (is_candidate now) (values s)) = rw c at h in
      ((λ c'. absurd (cc)), candidates_least now s y l)
]

-- A property of every item of the queue holds of the record that is picked, under its own key; the
-- record passes the test, and no other candidate comes before it.
pub pick_lem :
    (P : String → QueueRecord → Type 0) (now : Time) (s : Queue) (r : QueueRecord)
    → Each P s
    → pick now s ≡ some r
    → ((k : String) × P k r × (is_candidate now r ≡ true))
      × Each (λ k q. is_candidate now q ≡ true → ComesNoSooner q r) s
unfolding pick
pick_lem P now s r h e = (
  sorted_first-All (λ r. (k : String) × P k r × (is_candidate now r ≡ true))
      (keep (is_candidate now) (values s)) r (candidates-All P now s h) e,
  candidates_least now s r (sorted-first-IsLeast (keep (is_candidate now) (values s)) r e),
)

-- nothing is picked exactly where no item passes the test
pick-none :
    (now : Time) (s : Queue) → pick now s ≡ none → Each (λ k q. is_candidate now q ≡ false) s
unfolding pick
pick-none now s e = go s (no_first (keep (is_candidate now) (values s)) e)
  where
    go :
        (s : Queue)
        → keep (is_candidate now) (values s) ≡ []
        → Each (λ k q. is_candidate now q ≡ false) s
    go [] h = tt
    go ((k, r) ∷ s) h = elim (Bool-cases (is_candidate now r)) [
      | inl c ↦ absurd (cc (rw c at h))
      | inr c ↦ (c, go s (rw c at h))
    ]

-- What a claim does to a queue whose records all have the property `P`: it finds no candidate and
-- changes nothing, or it leases the best candidate.
abbrev pub ClaimOutcome :
    (P : String → QueueRecord → Type 0) → String → Time → Time → Queue → Type 0
ClaimOutcome P worker_id now duration s =
    ((pick now s ≡ none)
      × (claim worker_id now duration s ≡ (ok none, s))
      × Each (λ k q. is_candidate now q ≡ false) s)
    ⊎ ((r : QueueRecord) × ((k : String) × P k r × (is_candidate now r ≡ true))
        × Each (λ k q. is_candidate now q ≡ true → ComesNoSooner q r) s
        × (claim worker_id now duration s ≡ (
          ok (
              some (record {
                task_id = r.task_id;
                worker_id = worker_id;
                expires_at = now + duration;
                attempt = r.attempt + 1;
              })),
          put r.task_id
              (record r {
                claimed_by = some worker_id;
                lease_expires_at = some (now + duration);
                attempt = r.attempt + 1;
              })
              s,
        )))

-- A claim grants a lease on a record that waits, is due and comes first: it has every property `P`
-- of all stored records, and no other waiting and due record has a higher priority, or the same
-- priority and an earlier time. The record then belongs to the worker until the lease ends. Without
-- such a record nothing is granted or changed.
pub claim_lem :
    (P : String → QueueRecord → Type 0) (worker_id : String) (now duration : Time) (s : Queue)
    → Each P s
    → ClaimOutcome P worker_id now duration s
unfolding claim
claim_lem P worker_id now duration s h = elim (Option-cases (pick now s)) [
  | inl e ↦ inl (e, ground arith, pick-none now s e)
  | inr (r, e) ↦ inr (r, (pick_lem P now s r h e).0, (pick_lem P now s r h e).1, ground arith)
]
