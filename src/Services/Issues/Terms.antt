-- ===== src/Services/Issues/Terms.antt =====
-- application/ingestion.py: the contract of a task, read from its fields.
use meta_loop.Models.Identity.{is_phase8_sha}
use meta_loop.Base.Int.{pos}
use meta_loop.Base.Json.{
  Fields, Items, Json, cons, as_text, field_of, str, arr, num, field, nil, end,
}
use meta_loop.Domain.Enums.{RiskClass, risk_value, r0, r1, r2}
use meta_loop.Services.Issues.{
  IssueTaskSpec, check_spec, has_secret, str_items, items_texts, risk_of, typed, as_texts,
  is_version_one, allowed, field_names,
}
use meta_loop.Domain.Enums.{RiskClass, r0, r1, r2, r3}
use meta_loop.Base.{
  String, List, ◌≡◌, ◌≤◌, ◌∷◌, [], some, ok, refl, ◌∙◌, arith, len, true, false, String-discrete,
  Bool, length, is_blank, Option, text_case, all, any, ◌↔◌, All, ap, none, ◌||◌, elem, ltb,
  Option-cases, string_eq, inl, Bool-cases, inr, ◌==◌,
}

-- the limits of a task
abbrev pub IsSpec : IssueTaskSpec → Type 0
IsSpec s =
    (is_blank s.objective ≡ false)
    × (len s.objective ≤ 4096)
    × (1 ≤ length s.acceptance_criteria)
    × (length s.acceptance_criteria ≤ 20)
    × All (λ v. (is_blank v ≡ false) × (len v ≤ 512)) s.acceptance_criteria
    × (is_phase8_sha s.revision 40 ≡ true)

-- An object that is the contract of a task, its items in any order: it has no other fields, the
-- version is one, the fields hold the parts of the task, which keep the limits, and there is no
-- credential in it.
abbrev pub IsContract : Fields → IssueTaskSpec → Type 0
IsContract fs s =
    All (λ k. elem k allowed ≡ true) (field_names fs)
    × (field_of "schema_version" fs ≡ some (num (pos 1)))
    × (field_of "objective" fs ≡ some (str s.objective))
    × (field_of "acceptance_criteria" fs ≡ some (arr (str_items s.acceptance_criteria)))
    × (field_of "revision" fs ≡ some (str s.revision))
    × (field_of "risk" fs ≡ some (str (risk_value s.risk)))
    × (has_secret fs ≡ false)
    × IsSpec s

pub items_texts-str_items : (ss : List String) → items_texts (str_items ss) ≡ some ss
items_texts-str_items [] = refl
items_texts-str_items (s ∷ ss) = rw (items_texts-str_items ss) refl

items_texts-eq : (xs : Items) (ss : List String) → items_texts xs ≡ some ss → xs ≡ str_items ss
items_texts-eq nil ss h = let q : [] ≡ ss = ground (arith, h) in ap str_items q
items_texts-eq (cons (str s) xs) ss h = elim (Option-cases (items_texts xs)) [
  | inl a ↦ ground (arith, a, h)
  | inr (ts, a) ↦
      let q : s ∷ ts ≡ ss = ground (arith, a, h) in
      ap (cons (str s)) (items_texts-eq xs ts a) ∙ ap str_items q
]
items_texts-eq (cons _ xs) ss h = cc

pub as_texts-eq :
    (o : Option Json) (ss : List String) → as_texts o ≡ some ss → o ≡ some (arr (str_items ss))
as_texts-eq (some (arr xs)) ss h = ap (λ z. some (arr z)) (items_texts-eq xs ss h)
as_texts-eq _ ss h = cc

pub as_text-eq : (o : Option Json) (s : String) → as_text o ≡ some s → o ≡ some (str s)
as_text-eq (some (str t)) s h = ground (arith, h)
as_text-eq _ s h = cc

pub is_version_one-eq : (o : Option Json) → is_version_one o ≡ true → o ≡ some (num (pos 1))
is_version_one-eq (some (num n)) h = ground (arith, h)
is_version_one-eq _ h = cc

pub risk_of-risk_value : (r : RiskClass) → risk_of (risk_value r) ≡ some r
unfolding String-discrete
risk_of-risk_value r0 = refl
risk_of-risk_value r1 = refl
risk_of-risk_value r2 = refl
risk_of-risk_value r3 = refl

risk_of-eq : (v : String) (r : RiskClass) → risk_of v ≡ some r → v ≡ risk_value r
risk_of-eq v r h =
    let f = text_case risk_value v in
    f "R0" r0 r _ refl (f "R1" r1 r _ refl (f "R2" r2 r _ refl (f "R3" r3 r none refl (λ k. cc)))) h

pub field_of-elem :
    (k : String) (fs : Fields) (v : Json) → field_of k fs ≡ some v → elem k (field_names fs) ≡ true
field_of-elem k end v h = cc
field_of-elem k (field j x fs) v h = elim (Bool-cases (k == j)) [
  | inl a ↦ ground (arith, a)
  | inr a ↦ ground (arith, a, h, field_of-elem k fs v (ground (arith, a, h)))
]

-- what holds of all items, as a test and as a property
pub all-All :
    {A : Type 0} (p : A → Bool) (xs : List A) → (all p xs ≡ true) ↔ All (λ x. p x ≡ true) xs
all-All p [] = (λ h. tt, λ h. refl)
all-All p (x ∷ xs) = (
  λ h. (ground (arith, h), (all-All p xs).0 (ground (arith, h))),
  λ h. ground (arith, h.0, (all-All p xs).1 h.1),
)

criteria_iff :
    (ss : List String)
    → (any (λ v. is_blank v || ltb 512 (len v)) ss ≡ false)
      ↔ All (λ v. (is_blank v ≡ false) × (len v ≤ 512)) ss
criteria_iff [] = (λ h. tt, λ h. refl)
criteria_iff (s ∷ ss) = (
  λ h. ((ground (arith, h), ground (arith, h)), (criteria_iff ss).0 (ground (arith, h))),
  λ h. ground (arith, h.0.0, h.0.1, (criteria_iff ss).1 h.1),
)

pub check_spec_iff : (s r : IssueTaskSpec) → (check_spec s ≡ ok r) ↔ ((s ≡ r) × IsSpec s)
unfolding check_spec
check_spec_iff s r = (
  λ h. (
    ground (arith, h),
    (
      ground (arith, h),
      ground (arith, h),
      ground (arith, h),
      ground (arith, h),
      (criteria_iff s.acceptance_criteria).0 (ground (arith, h)),
      ground (arith, h),
    ),
  ),
  λ (q, k).
      let c = (criteria_iff s.acceptance_criteria).1 k.4 in
      ground (arith, q, k.0, k.1, k.2, k.3, c, k.5),
)

pub typed-eq :
    (a : Option String) (b : Option (List String)) (c d : Option String) (s : IssueTaskSpec)
    → typed a b c d ≡ some s
    → (a ≡ some s.objective)
      × (b ≡ some s.acceptance_criteria)
      × (c ≡ some s.revision)
      × (d ≡ some (risk_value s.risk))
unfolding typed
typed-eq (some a) (some b) (some c) (some d) s h = elim (Option-cases (risk_of d)) [
  | inl e ↦ ground (arith, e, h)
  | inr (r, e) ↦
      let q : r ≡ s.risk = ground (arith, e, h) in
      (
        ground (arith, e, h),
        ground (arith, e, h),
        ground (arith, e, h),
        ap some (risk_of-eq d r e ∙ ap risk_value q),
      )
]
typed-eq _ _ _ _ s h = cc
