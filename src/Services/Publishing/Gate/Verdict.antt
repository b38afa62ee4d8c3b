-- ===== src/Services/Publishing/Gate/Verdict.antt =====
-- application/publication.py: the check gate against a description of its own.
use meta_loop.Models.Publication.{PublicationRecord, PreparedHead}
use meta_loop.Memory.UnitOfWork.{Store}
use mathlib.Core.Path.{subst}
use meta_loop.Services.Publishing.{in_block, passed_head}
use meta_loop.Services.Publishing.Gate.Newest.{In, NotAfter, collect-Kept, collect-none}
use meta_loop.Services.Publishing.Gate.{
  is_success, all_passed, check, Latest, validated_state, collect, CheckSource, exact_effect,
  store_checks, gate_result,
}
use meta_loop.Models.Checks.{
  CheckRunObservation, CheckRunStatus, check_gate_result, success, CheckGateResult,
}
use meta_loop.Base.{
  String, List, get, All, ◌≡◌, Option, ◌∷◌, arith, true, some, [], inl, ok, inr, Option-cases, none,
  ◌↔◌, ◌≢◌, refl, string_eq, Bool-cases, ◌∙◌, ap, Result-cases, Bool, sym,
}

-- the observation of a name that no other one of the name reaches in time
abbrev pub IsNewest : String → List CheckRunObservation → CheckRunObservation → Type 0
IsNewest name xs o = In o xs × (o.check_name ≡ name) × All (NotAfter name o) xs

-- each name's newest observation is a completed success
abbrev pub Accepts : List String → List CheckRunObservation → Type 0
Accepts names xs =
    All
      (λ name.
        (o : CheckRunObservation) × IsNewest name xs o
        × (o.status ≡ CheckRunStatus.completed)
        × (o.conclusion ≡ some success))
      names

collect-IsNewest :
    (id sha name : String) (o : CheckRunObservation) (xs : List CheckRunObservation) (d : Latest)
    → collect id sha xs [] ≡ ok d
    → get name d ≡ some o
    → IsNewest name xs o
unfolding get
collect-IsNewest id sha name o xs d h g =
    let k = collect-Kept id sha name o xs [] d h g in
    elim k.source [ inl e ↦ cc | inr (i, m) ↦ (i, m, k.newest) ]

In-All :
    (P : CheckRunObservation → Type 0) (o : CheckRunObservation) (xs : List CheckRunObservation)
    → In o xs
    → All P xs
    → P o
In-All P o [] i a = elim i [ ]
In-All P o (x ∷ xs) (inl e) a = subst P e a.0
In-All P o (x ∷ xs) (inr i) a = In-All P o xs i a.1

IsNewest-unique :
    (name : String) (xs : List CheckRunObservation) (o p : CheckRunObservation)
    → IsNewest name xs o
    → IsNewest name xs p
    → o ≡ p
IsNewest-unique name xs o p h k =
    ground (
      arith,
      In-All (NotAfter name o) p xs k.0 h.2,
      In-All (NotAfter name p) o xs h.0 k.2,
      h.1,
      k.1,
    )

-- a name that has a newest observation is kept
newest-get :
    (id sha name : String) (o : CheckRunObservation) (xs : List CheckRunObservation) (d : Latest)
    → collect id sha xs [] ≡ ok d
    → IsNewest name xs o
    → get name d ≡ some o
newest-get id sha name o xs d h n = elim (Option-cases (get name d)) [
  | inl e ↦
      absurd
        (In-All (λ q. q.check_name ≢ name) o xs n.0 (collect-none id sha name xs [] d h e).1 n.1)
  | inr (p, e) ↦
      e ∙ ap some (IsNewest-unique name xs p o (collect-IsNewest id sha name p xs d h e) n)
]

is_success-eq :
    (o : Option CheckRunObservation)
    → is_success o ≡ true
    → (p : CheckRunObservation) × (o ≡ some p)
      × (p.status ≡ CheckRunStatus.completed)
      × (p.conclusion ≡ some success)
unfolding is_success
is_success-eq none h = cc
is_success-eq (some p) h = (p, refl, ground (arith, h), ground (arith, h))

-- What the loop over the observations finds is what the gate means: where it does not raise, all
-- required checks pass exactly if each one's newest observation is a completed success.
pub all_passed_iff :
    (id sha : String) (names : List String) (xs : List CheckRunObservation) (d : Latest)
    → collect id sha xs [] ≡ ok d
    → (all_passed names d ≡ true) ↔ Accepts names xs
unfolding all_passed is_success
all_passed_iff id sha [] xs d h = (λ _. tt, λ _. refl)
all_passed_iff id sha (n ∷ ns) xs d h =
    let rest = all_passed_iff id sha ns xs d h in
    (
      (λ a.
          let (p, e, st, c) = is_success-eq (get n d) (ground (arith, a)) in
          ((p, collect-IsNewest id sha n p xs d h e, st, c), rest.0 (ground (arith, a)))),
      (λ a.
          let (p, m, st, c) = a.0 in
          ground (arith, newest-get id sha n p xs d h m, st, c, rest.1 a.1)),
    )

checked-eq : (g r : CheckGateResult) → check_gate_result g ≡ ok r → r ≡ g
unfolding check_gate_result
checked-eq g r h = ground (arith, h)

-- The result of a check that returns: it is about the stored head, it names the required checks, and
-- it has passed exactly if the newest observation of each required check, of those that the source
-- has given for this head, is a completed success.
pub check_lem :
    (source : CheckSource) (names : List String) (id effect_id : String) (s : Store)
    (r : CheckGateResult)
    → (check source names id effect_id s).0 ≡ ok r
    → (p : PublicationRecord) × (h : PreparedHead) × (xs : List CheckRunObservation) × (passed_head
          (get id s.publications)
        ≡ some (p, h))
      × (source id p.intent.repository_name h.head_sha ≡ ok xs)
      × (r.head_sha ≡ h.head_sha)
      × (r.required_checks ≡ names)
      × ((r.passed ≡ true) ↔ Accepts names xs)
unfolding check validated_state in_block
check_lem source names id effect_id s r e = elim (Bool-cases s.fuse.engaged) [
  | inl f ↦ ground (arith, f, e)
  | inr f ↦ elim (Option-cases (passed_head (get id s.publications))) [
    | inl a ↦ ground (arith, f, a, e)
    | inr ((p, h), a) ↦ elim (Option-cases (exact_effect (get effect_id s.effects) id h)) [
      | inl b ↦ ground (arith, f, a, b, e)
      | inr (x, b) ↦ elim (Result-cases (source id p.intent.repository_name h.head_sha)) [
        | inr (y, c) ↦ ground (arith, f, a, b, c, e)
        | inl (xs, c) ↦ elim (Result-cases (collect id h.head_sha xs [])) [
          | inr (y, d) ↦ ground (arith, f, a, b, c, d, e)
          | inl (m, d) ↦ elim (Result-cases (in_block (store_checks id effect_id h x xs) s).0) [
            | inr (y, g) ↦ ground (arith, f, a, b, c, d, g, e)
            | inl (_, g) ↦
                let q : check_gate_result (gate_result id h.head_sha names (all_passed names m))
                    ≡ ok r =
                  ground (arith, f, a, b, c, d, g, e) in
                let v = all_passed_iff id h.head_sha names xs m d in
                let w = checked-eq (gate_result id h.head_sha names (all_passed names m)) r q in
                (
                  p,
                  h,
                  xs,
                  a,
                  c,
                  ap (λ y. y.head_sha) w,
                  ap (λ y. y.required_checks) w,
                  subst (λ (y : Bool). (y ≡ true) ↔ Accepts names xs) (ap (λ y. y.passed) (sym w))
                      v,
                )
          ]
        ]
      ]
    ]
  ]
]
