-- ===== src/Memory/Events/Invariant.antt =====
-- infrastructure/memory.py: what holds of the event store between calls.
use meta_loop.Base.Int.{◌+ℤ◌, pos, ℤ}
use mathlib.Core.Path.{subst, sym}
use meta_loop.Domain.Event.{event_eq, Event}
use meta_loop.Base.{
  ℕ, Option-cases, ◌∷◌, ◌≡◌, Each, get, elem, some, inl, true, ◌++◌, string_eq, suc, inr, [],
  Each-put, arith, ◌+◌, Each-get, get-put, length, ◌∙◌, ap, none, put, get-put_self, refl, ◌⊎◌, ok,
  err, idempotency_conflict, String, Dict, List, if◌then◌else◌, ◌==◌,
}
use meta_loop.Memory.Events.{Events, history, append, set_default, append_new}

-- The events of a history carry the task and the numbers 1, 2, 3, …
abbrev pub IsNumbered : String → ℕ → List Event → Type 0
IsNumbered task_id n [] = Unit
IsNumbered task_id n (e ∷ h) =
    (e.task_id ≡ task_id) × (e.sequence ≡ pos (suc n)) × IsNumbered task_id (suc n) h

abbrev pub IsIndexed : Dict String (List Event) → String → Event → Type 0
IsIndexed d id e =
    (e.event_id ≡ id) × ((h : List Event) × (get e.task_id d ≡ some h) × (elem e h ≡ true))

pub record IsConsistent (s : Events) : Type 0 where
  pub numbered : Each (λ k h. IsNumbered k 0 h) s.histories
  pub indexed : Each (IsIndexed s.histories) s.event_ids

IsNumbered-snoc :
    (k : String) (n : ℕ) (h : List Event) (e : Event)
    → IsNumbered k n h
    → e.task_id ≡ k
    → e.sequence ≡ pos (suc (n + length h))
    → IsNumbered k n (h ++ e ∷ [])
IsNumbered-snoc k n [] e w p q = (p, q ∙ ap (λ (m : ℕ). pos (suc m)) (omega arith), tt)
IsNumbered-snoc k n (x ∷ h) e w p q =
    (w.0, w.1, IsNumbered-snoc k (suc n) h e w.2 p (q ∙ ap (λ (m : ℕ). pos (suc m)) (omega arith)))

history-none : (k : String) (s : Events) → get k s.histories ≡ none → history k s ≡ []
unfolding history
history-none k s e = ground arith

history-some :
    (k : String) (s : Events) (h : List Event) → get k s.histories ≡ some h → history k s ≡ h
unfolding history
history-some k s h e = ground arith

history-IsNumbered : (k : String) (s : Events) → IsConsistent s → IsNumbered k 0 (history k s)
history-IsNumbered k s c = elim (Option-cases (get k s.histories)) [
  | inl e ↦ subst (IsNumbered k 0) (sym (history-none k s e)) tt
  | inr (h, e) ↦
      subst (IsNumbered k 0) (sym (history-some k s h e))
        (Each-get (λ k h. IsNumbered k 0 h) k s.histories c.numbered e)
]

elem-snoc : (x e : Event) (h : List Event) → elem x h ≡ true → elem x (h ++ e ∷ []) ≡ true
elem-snoc x e [] p = cc
elem-snoc x e (y ∷ h) p = ground (arith, elem-snoc x e h)

elem-snoc_self : (e : Event) (h : List Event) → elem e (h ++ e ∷ []) ≡ true
elem-snoc_self e [] = ground arith
elem-snoc_self e (y ∷ h) = ground (arith, elem-snoc_self e h)

set_default-none :
    (k : String) (d : Dict String (List Event)) → get k d ≡ none → set_default k d ≡ put k [] d
unfolding set_default
set_default-none k d e = ground arith

set_default-some :
    (k : String) (d : Dict String (List Event)) (h : List Event)
    → get k d ≡ some h
    → set_default k d ≡ d
unfolding set_default
set_default-some k d h e = ground arith

abbrev AllNumbered : Dict String (List Event) → Type 0
AllNumbered d = Each (λ k h. IsNumbered k 0 h) d

set_default-numbered :
    (k : String) (d : Dict String (List Event)) → AllNumbered d → AllNumbered (set_default k d)
set_default-numbered k d h = elim (Option-cases (get k d)) [
  | inl e ↦
      subst AllNumbered (sym (set_default-none k d e))
        (Each-put (λ k h. IsNumbered k 0 h) k [] d h tt)
  | inr (x, e) ↦ subst AllNumbered (sym (set_default-some k d x e)) h
]

-- What a call finds under a key, it finds after `setdefault` too.
get-set_default :
    (k j : String) (d : Dict String (List Event)) {h : List Event}
    → get j d ≡ some h
    → get j (set_default k d) ≡ some h
unfolding set_default
get-set_default k j d e = ground (arith, get-put k j [] d)

-- Longer histories keep every indexed event in its place.
IsIndexed-grow :
    (d d' : Dict String (List Event))
    → ((j : String) (x : Event) (h : List Event)
        → get j d ≡ some h
        → elem x h ≡ true
        → (h' : List Event) × (get j d' ≡ some h') × (elem x h' ≡ true))
    → (ids : Dict String Event) → Each (IsIndexed d) ids
    → Each (IsIndexed d') ids
IsIndexed-grow d d' grow [] h = tt
IsIndexed-grow d d' grow ((id, x) ∷ ids) ((p, (h, g, m)), rest) =
    ((p, grow x.task_id x h g m), IsIndexed-grow d d' grow ids rest)

-- What the store holds after a call that it refused for its sequence number.
refused-IsConsistent :
    (k : String) (s : Events)
    → IsConsistent s
    → IsConsistent (record s { histories = set_default k s.histories })
refused-IsConsistent k s c = record {
  numbered = set_default-numbered k s.histories c.numbered;
  indexed =
      IsIndexed-grow s.histories (set_default k s.histories)
        (λ j x h g m. (h, get-set_default k j s.histories g, m)) s.event_ids c.indexed;
}

abbrev longer : Event → Events → List Event
longer e s = history e.task_id s ++ e ∷ []

abbrev stored : Event → Events → Dict String (List Event)
stored e s = put e.task_id (longer e s) (set_default e.task_id s.histories)

module _ (e : Event) (s : Events) (c : IsConsistent s) where
  grown :
      (j : String) (x : Event) (h : List Event)
      → get j s.histories ≡ some h
      → elem x h ≡ true
      → (h' : List Event) × (get j (stored e s) ≡ some h') × (elem x h' ≡ true)
  grown j x h g m = elim (string_eq.dec j e.task_id) [
    | yes p ↦ (
      (longer e s),
      ground (arith, get-put e.task_id j (longer e s) (set_default e.task_id s.histories)),
      rw (history-some e.task_id s h (rw (← p) g)) (elem-snoc x e h m),
    )
    | no p ↦ (
      h,
      ground (
        arith,
        get-put e.task_id j (longer e s) (set_default e.task_id s.histories),
        get-set_default e.task_id j s.histories g,
      ),
      m,
    )
  ]

  added-IsConsistent :
      e.sequence ≡ pos (suc (length (history e.task_id s)))
      → IsConsistent (record { histories = (stored e s); event_ids = put e.event_id e s.event_ids })
  added-IsConsistent q = record {
    numbered =
        Each-put (λ k h. IsNumbered k 0 h) e.task_id (longer e s)
          (set_default e.task_id s.histories)
          (set_default-numbered e.task_id s.histories c.numbered)
          (IsNumbered-snoc e.task_id 0 (history e.task_id s) e (history-IsNumbered e.task_id s c)
            refl (q ∙ ap (λ (m : ℕ). pos (suc m)) (omega arith)));
    indexed =
        Each-put (IsIndexed (stored e s)) e.event_id e s.event_ids
          (IsIndexed-grow s.histories (stored e s) grown s.event_ids c.indexed)
          (
            refl,
            (
              (longer e s),
              get-put_self e.task_id (longer e s) (set_default e.task_id s.histories),
              elem-snoc_self e (history e.task_id s),
            ),
          );
  }

one_more : (n : ℕ) (a b : ℤ) → pos n ≡ a → b ≡ a +ℤ pos 1 → b ≡ pos (suc n)
unfolding ◌+ℤ◌
one_more n a b p q = ground arith

added : Event → Events → Events
added e s = record {
  histories = put e.task_id (longer e s) (set_default e.task_id s.histories);
  event_ids = put e.event_id e s.event_ids;
}

append_new-cases :
    (e : Event) (expected : ℤ) (s : Events)
    → (((append_new e expected s).1 ≡ added e s)
        × (e.sequence ≡ pos (suc (length (history e.task_id s)))))
      ⊎ ((append_new e expected s).1 ≡ record s { histories = set_default e.task_id s.histories })
unfolding append_new added
append_new-cases e expected s =
    ground (arith, one_more (length (history e.task_id s)) expected e.sequence)

append_new-IsConsistent :
    (e : Event) (expected : ℤ) (s : Events)
    → IsConsistent s
    → IsConsistent (append_new e expected s).1
unfolding added
append_new-IsConsistent e expected s c = elim (append_new-cases e expected s) [
  | inl (p, q) ↦ subst IsConsistent (sym p) (added-IsConsistent e s c q)
  | inr p ↦ subst IsConsistent (sym p) (refused-IsConsistent e.task_id s c)
]

append-cases :
    (e : Event) (expected : ℤ) (s : Events)
    → ((append e expected s).1 ≡ s) ⊎ ((append e expected s).1 ≡ (append_new e expected s).1)
unfolding append
append-cases e expected s = ground arith

-- Every call of `append`, refused or not, keeps a consistent store consistent: each history
-- holds its task's events under the numbers 1, 2, 3, … without a gap, and every known event id
-- belongs to an event of its task's history.
pub append-IsConsistent :
    (e : Event) (expected : ℤ) (s : Events) → IsConsistent s → IsConsistent (append e expected s).1
append-IsConsistent e expected s c = elim (append-cases e expected s) [
  | inl p ↦ subst IsConsistent (sym p) c
  | inr p ↦ subst IsConsistent (sym p) (append_new-IsConsistent e expected s c)
]

-- After an event is appended, another one under its event id, whatever sequence number is then
-- expected, is answered with the stored event if the two are equal and refused if they are not; the
-- store stays as it is.
pub append_again :
    (e other : Event) (expected again : ℤ) (s : Events)
    → (append e expected s).0 ≡ ok e
    → other.event_id ≡ e.event_id
    → let s' = (append e expected s).1 in
      append other again s' ≡ (if e == other then ok e else err idempotency_conflict, s')
unfolding append append_new
append_again e other expected again s h p = ground (arith, get-put_self e.event_id e s.event_ids)
