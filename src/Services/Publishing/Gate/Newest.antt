-- ===== src/Services/Publishing/Gate/Newest.antt =====
-- application/publication.py: the loop of `check` keeps the newest observation of each name.
use mathlib.Core.Path.{subst}
use meta_loop.Services.Publishing.Gate.{newer, Latest, collect, is_observation_of}
use meta_loop.Base.{
  String, List, ◌≡◌, ◌∷◌, ◌⊎◌, get, [], ◌<◌, some, ok, All, put, inl, string_eq, none, inr,
  Option-cases, arith, Bool-cases, ltb, if◌then◌else◌, ◌==◌, ◌≢◌, ap, Result-cases, ◌∙◌, get-put,
}
use meta_loop.Models.Checks.{CheckRunObservation}

abbrev pub In : CheckRunObservation → List CheckRunObservation → Type 0
In o [] = ⊥
In o (x ∷ xs) = (x ≡ o) ⊎ In o xs

-- `o` is the newest of its name: any other observation of the name is older
abbrev pub NotAfter : String → CheckRunObservation → CheckRunObservation → Type 0
NotAfter name o q = q.check_name ≡ name → (q ≡ o) ⊎ (q.observed_at < o.observed_at)

-- what the loop has kept under a name, of the observations `xs` and of those before
pub record Kept (name : String) (o : CheckRunObservation) (xs : List CheckRunObservation)
    (c : Latest) : Type 0 where
  pub source : (get name c ≡ some o) ⊎ (In o xs × (o.check_name ≡ name))
  pub newest : All (NotAfter name o) xs
  pub before :
      (p : CheckRunObservation) → get name c ≡ some p → (p ≡ o) ⊎ (p.observed_at < o.observed_at)

newer-cases :
    (x : CheckRunObservation) (c d : Latest)
    → newer (get x.check_name c) x c ≡ ok d
    → ((d ≡ put x.check_name x c)
        × ((get x.check_name c ≡ none)
            ⊎ ((p : CheckRunObservation) × (get x.check_name c ≡ some p)
                × (p.observed_at < x.observed_at))))
      ⊎ ((d ≡ c)
          × ((p : CheckRunObservation) × (get x.check_name c ≡ some p)
              × (x.observed_at < p.observed_at)))
unfolding newer
newer-cases x c d h = elim (Option-cases (get x.check_name c)) [
  | inl e ↦ inl (ground (arith, e, h), inl e)
  | inr (p, e) ↦ elim (Bool-cases (ltb p.observed_at x.observed_at)) [
    | inl b ↦ inl (ground (arith, e, b, h), inr (p, e, ground (arith, b)))
    | inr b ↦ inr (ground (arith, e, b, h), (p, e, ground (arith, e, b, h)))
  ]
]

replaced-Kept :
    (name : String) (o x : CheckRunObservation) (xs : List CheckRunObservation) (c d : Latest)
    → d ≡ put x.check_name x c
    → ((p : CheckRunObservation) → get x.check_name c ≡ some p → p.observed_at < x.observed_at)
    → Kept name o xs d
    → Kept name o (x ∷ xs) c
replaced-Kept name o x xs c d e older k =
    let g : get name d ≡ (if name == x.check_name then some x else get name c) =
      ap (get name) e ∙ get-put x.check_name name x c in
    elim (string_eq.dec x.check_name name) [
      | yes q ↦
          let now : get name d ≡ some x = ground (arith, g, q) in
          record {
            source = ground (arith, now, q, k.source);
            newest = ((λ _. k.before x now), k.newest);
            before = λ p h. ground (arith, k.before x now, older p, q, h);
          }
      | no q ↦
          let same : get name d ≡ get name c = ground (arith, g, q) in
          record {
            source = ground (arith, same, k.source);
            newest = ((λ m. absurd (q m)), k.newest);
            before = λ p h. k.before p (same ∙ h);
          }
    ]

skipped-Kept :
    (name : String) (o x p : CheckRunObservation) (xs : List CheckRunObservation) (c : Latest)
    → get x.check_name c ≡ some p
    → x.observed_at < p.observed_at
    → Kept name o xs c
    → Kept name o (x ∷ xs) c
skipped-Kept name o x p xs c g l k = record {
  source = ground (arith, k.source);
  newest = ((λ m. ground (arith, k.before p, m, g, l)), k.newest);
  before = k.before;
}

step-Kept :
    (name : String) (o x : CheckRunObservation) (xs : List CheckRunObservation) (c d : Latest)
    → newer (get x.check_name c) x c ≡ ok d
    → Kept name o xs d
    → Kept name o (x ∷ xs) c
step-Kept name o x xs c d h k = elim (newer-cases x c d h) [
  | inl (e, inl n) ↦ replaced-Kept name o x xs c d e (λ p g. ground (arith, n, g)) k
  | inl (e, inr (p, g, l)) ↦ replaced-Kept name o x xs c d e (λ q g'. ground (arith, g, g', l)) k
  | inr (e, (p, g, l)) ↦ skipped-Kept name o x p xs c g l (subst (Kept name o xs) e k)
]

pub collect-Kept :
    (id sha name : String) (o : CheckRunObservation) (xs : List CheckRunObservation) (c d : Latest)
    → collect id sha xs c ≡ ok d
    → get name d ≡ some o
    → Kept name o xs c
unfolding collect
collect-Kept id sha name o [] c d h g = record {
  source = inl (ground (arith, h, g));
  newest = tt;
  before = λ p k. inl (ground (arith, h, g, k));
}
collect-Kept id sha name o (x ∷ xs) c d h g = elim (Bool-cases (is_observation_of id sha x)) [
  | inr b ↦ ground (arith, b, h)
  | inl b ↦ elim (Result-cases (newer (get x.check_name c) x c)) [
    | inr (y, f) ↦ ground (arith, b, f, h)
    | inl (e, f) ↦
        step-Kept name o x xs c e f (collect-Kept id sha name o xs e d (ground (arith, b, f, h)) g)
  ]
]

-- nothing is kept under a name only if no observation has it
pub collect-none :
    (id sha name : String) (xs : List CheckRunObservation) (c d : Latest)
    → collect id sha xs c ≡ ok d
    → get name d ≡ none
    → (get name c ≡ none) × All (λ q. q.check_name ≢ name) xs
unfolding collect
collect-none id sha name [] c d h g = (ground (arith, h, g), tt)
collect-none id sha name (x ∷ xs) c d h g = elim (Bool-cases (is_observation_of id sha x)) [
  | inr b ↦ ground (arith, b, h)
  | inl b ↦ elim (Result-cases (newer (get x.check_name c) x c)) [
    | inr (y, f) ↦ ground (arith, b, f, h)
    | inl (e, f) ↦
        let r = collect-none id sha name xs e d (ground (arith, b, f, h)) g in
        elim (newer-cases x c e f) [
          | inl (p, _) ↦ (
            ground (arith, r.0, ap (get name) p, get-put x.check_name name x c),
            ((λ m. ground (arith, m, r.0, ap (get name) p, get-put x.check_name name x c)), r.1),
          )
          | inr (p, (q, g', _)) ↦ (
            ground (arith, r.0, ap (get name) p),
            ((λ m. ground (arith, m, r.0, ap (get name) p, g')), r.1),
          )
        ]
  ]
]
