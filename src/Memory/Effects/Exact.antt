-- ===== src/Memory/Effects/Exact.antt =====
-- infrastructure/memory.py: what publication effects and their receipts were checked against.
use meta_loop.Models.Review.{PublicationReviewDecision, ReviewDecision, approved, decision_value}
use meta_loop.Memory.Approvals.{is_verified}
use meta_loop.Models.Publication.{VerificationResult, VerificationStatus, verification_status_eq}
use meta_loop.Base.{
  get, ◌≡◌, some, true, ◌⊎◌, none, string_eq, Option-cases, any, inl, arith, values, inr, false,
  put, Bool-cases, ◌&&◌, List, Option, All, ◌∷◌, refl, [], String-discrete, ap, ◌==◌,
}
use meta_loop.Models.Publication.{PublicationRecord, PreparedHead}
use meta_loop.Models.Effect.{PublicationEffectIntent, PublicationEffectRecord}
use meta_loop.Memory.Effects.{
  EffectSources, is_exact_head, request_effect, Effects, has_approval, has_same_ref, effect_record,
  is_approval_of,
}

-- an item of the list has the property
abbrev HasSome {ℓ} : {A : Type ℓ} → (A → Type 0) → List A → Type 0
HasSome P [] = ⊥
HasSome P (x ∷ xs) = P x ⊎ HasSome P xs

-- a decision that approves the effect's head
abbrev pub Approves : PublicationEffectIntent → PublicationReviewDecision → Type 0
Approves i d =
    (d.publication_id ≡ i.publication_id) × (d.head_sha ≡ i.head_sha) × (d.decision ≡ approved)

-- another effect has the publication and the ref
abbrev pub TakesRef : PublicationEffectIntent → PublicationEffectRecord → Type 0
TakesRef i r =
    (r.intent.publication_id ≡ i.publication_id)
    × (r.intent.deterministic_ref ≡ i.deterministic_ref)

-- an effect is about the head and the ref of a stored publication whose verification has succeeded,
-- and a stored decision approves that head
abbrev pub IsApproved : EffectSources → PublicationEffectIntent → Type 0
IsApproved w i =
    (r : PublicationRecord) × (h : PreparedHead) × (v : VerificationResult) × (get i.publication_id
        w.publications
      ≡ some r)
    × (r.prepared_head ≡ some h)
    × (r.verification ≡ some v)
    × (v.status ≡ VerificationStatus.succeeded)
    × (h.head_sha ≡ i.head_sha)
    × (h.deterministic_ref ≡ i.deterministic_ref)
    × HasSome (Approves i) (values w.approvals)

decision_value-approved : (d : ReviewDecision) → decision_value d ≡ "approved" → d ≡ approved
unfolding String-discrete
decision_value-approved approved h = refl
decision_value-approved ReviewDecision.rejected h =
    let apart : false ≡ true = ap (λ z. z == "approved") h in cc

is_approval_of-Approves :
    (i : PublicationEffectIntent) (d : PublicationReviewDecision)
    → is_approval_of i d ≡ true
    → Approves i d
unfolding is_approval_of
is_approval_of-Approves i d h =
    (ground (arith, h), ground (arith, h), decision_value-approved d.decision (ground (arith, h)))

any-Approves :
    (i : PublicationEffectIntent) (ds : List PublicationReviewDecision)
    → any (is_approval_of i) ds ≡ true
    → HasSome (Approves i) ds
any-Approves i [] h = cc
any-Approves i (d ∷ ds) h = elim (Bool-cases (is_approval_of i d)) [
  | inl a ↦ inl (is_approval_of-Approves i d a)
  | inr a ↦ inr (any-Approves i ds (ground (arith, a, h)))
]

any-TakesRef :
    (i : PublicationEffectIntent) (rs : List PublicationEffectRecord)
    → any (has_same_ref i) rs ≡ false
    → All (λ r. ¬ TakesRef i r) rs
unfolding has_same_ref
any-TakesRef i [] h = tt
any-TakesRef i (r ∷ rs) h =
    (λ t. ground (arith, h, t.0, t.1), any-TakesRef i rs (ground (arith, h)))

pub TakesRef-any :
    (i : PublicationEffectIntent) (rs : List PublicationEffectRecord)
    → All (λ r. ¬ TakesRef i r) rs
    → any (has_same_ref i) rs ≡ false
unfolding has_same_ref
TakesRef-any i [] h = refl
TakesRef-any i (r ∷ rs) h = elim (Bool-cases (has_same_ref i r)) [
  | inl a ↦ absurd (h.0 (ground (arith, a), ground (arith, a)))
  | inr a ↦ ground (arith, a, TakesRef-any i rs h.1)
]

is_verified-succeeded :
    (o : Option VerificationResult)
    → is_verified o ≡ true
    → (v : VerificationResult) × (o ≡ some v) × (v.status ≡ VerificationStatus.succeeded)
is_verified-succeeded none h = cc
is_verified-succeeded (some v) h = (v, refl, ground (arith, h))

is_exact_head-IsApproved :
    (w : EffectSources) (i : PublicationEffectIntent)
    → is_exact_head (get i.publication_id w.publications) i ≡ true
    → has_approval w.approvals i ≡ true
    → IsApproved w i
unfolding is_exact_head
is_exact_head-IsApproved w i g a = elim (Option-cases (get i.publication_id w.publications)) [
  | inl e ↦ ground (arith, e, g)
  | inr (r, e) ↦ elim (Option-cases r.prepared_head) [
    | inl n ↦ ground (arith, e, n, g)
    | inr (h, n) ↦
        let (v, m, k) = is_verified-succeeded r.verification (ground (arith, e, n, g)) in
        (
          r,
          h,
          v,
          e,
          n,
          m,
          k,
          ground (arith, e, n, g),
          ground (arith, e, n, g),
          any-Approves i (values w.approvals) a,
        )
  ]
]

-- A request changes nothing, or it adds its effect, which has no receipt yet. It adds it only if the
-- effect's id is new, the publication it names is stored with a succeeded verification and with the
-- effect's head and ref, a stored decision approves that publication and head, and no stored effect
-- has the same publication and ref.
pub request_effect-cases :
    (w : EffectSources) (i : PublicationEffectIntent) (s : Effects)
    → ((request_effect w i s).1 ≡ s)
      ⊎ ((get i.effect_id s ≡ none)
          × IsApproved w i
          × All (λ r. ¬ TakesRef i r) (values s)
          × ((request_effect w i s).1 ≡ put i.effect_id (effect_record i none) s))
unfolding request_effect
request_effect-cases w i s = elim (Option-cases (get i.effect_id s)) [
  | inr (c, e) ↦ inl (ground arith)
  | inl e ↦
      elim (Bool-cases
        (is_exact_head (get i.publication_id w.publications) i && has_approval w.approvals i)) [
          | inr b ↦ inl (ground arith)
          | inl b ↦ elim (Bool-cases (any (has_same_ref i) (values s))) [
            | inl c ↦ inl (ground arith)
            | inr c ↦ inr (
              e,
              is_exact_head-IsApproved w i (ground arith) (ground arith),
              any-TakesRef i (values s) c,
              ground arith,
            )
          ]
        ]
]
