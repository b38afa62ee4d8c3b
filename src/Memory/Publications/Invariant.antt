-- ===== src/Memory/Publications/Invariant.antt =====
-- infrastructure/memory.py: what every sequence of calls of `InMemoryPublicationLedger` keeps.
use mathlib.Core.Path.{subst}
use meta_loop.Base.Int.{◌+ℤ◌, ℤ, pos}
use meta_loop.Models.Publication.{
  PublicationRecord, PublicationIntent, PublicationState, PreparedHead, VerificationResult,
}
use meta_loop.Base.{
  List, String, ◌∷◌, Each, inl, ◌≡◌, get, some, sym, put, ap, [], inr, string_eq, ◌∙◌, Each-put,
  arith, refl, Each-get, get-put,
}
use meta_loop.Memory.Publications.{
  References, Publications, reserve, record_prepared, verified, record_verification, reserved,
  prepared_record, prepared, verified_record, reserved_record,
}
use meta_loop.Memory.Publications.Stages.{
  IsStaged, StageFits, reserve-cases, record_prepared-cases, record_verification-cases,
}

-- the calls that may change the ledger; `reserve` sees the other stores of its time
pub data Call : Type 0 where
  reserving : References → PublicationIntent → Call
  preparing : PreparedHead → ℤ → Call
  verifying : VerificationResult → ℤ → Call

unfoldable pub after : Call → Publications → Publications
after (reserving w i) s = (reserve w i s).1
after (preparing p n) s = (record_prepared p n s).1
after (verifying v n) s = (record_verification v n s).1

unfoldable pub after_all : List Call → Publications → Publications
after_all [] s = s
after_all (c ∷ cs) s = after_all cs (after c s)

abbrev Staged : Publications → Type 0
Staged s = Each IsStaged s

fits_at :
    (r : PublicationRecord) (t : PublicationState)
    → r.state ≡ t
    → StageFits r.state r
    → StageFits t r
fits_at r t e h = subst (λ x. StageFits x r) e h

some-inj : {p q : PreparedHead} → some p ≡ some q → p ≡ q
some-inj e = ground (arith, e)

prepared-IsStaged :
    (k : String) (r : PublicationRecord) (p : PreparedHead)
    → IsStaged k r
    → r.state ≡ reserved
    → p.patch_digest ≡ r.intent.patch_digest
    → p.base_sha ≡ r.intent.base_sha
    → p.publication_id ≡ r.intent.publication_id
    → IsStaged k (prepared_record r p)
unfolding ◌+ℤ◌
prepared-IsStaged k r p h e d b i =
    let f : StageFits reserved r = fits_at r reserved e h.1 in
    (h.0, (ap (λ x. x +ℤ pos 1) f.0, (p, refl, i, d, b), refl))

verified-IsStaged :
    (k : String) (r : PublicationRecord) (p : PreparedHead) (v : VerificationResult)
    → IsStaged k r
    → r.state ≡ prepared
    → r.prepared_head ≡ some p
    → v.head_sha ≡ p.head_sha
    → v.publication_id ≡ k
    → IsStaged k (verified_record r p v)
unfolding ◌+ℤ◌
verified-IsStaged k r p v h e q d i =
    let f : StageFits prepared r = fits_at r prepared e h.1 in
    let (g, e', a, b, c) = f.1 in
    let same : g ≡ p = some-inj (sym e' ∙ q) in
    (
      h.0,
      (
        ap (λ x. x +ℤ pos 1) f.0,
        (
          p,
          refl,
          ap (λ x. x.publication_id) (sym same) ∙ a,
          ap (λ x. x.patch_digest) (sym same) ∙ b,
          ap (λ x. x.base_sha) (sym same) ∙ c,
          (v, refl, i ∙ sym h.0, d),
        ),
      ),
    )

after-IsStaged : (c : Call) (s : Publications) → Staged s → Staged (after c s)
unfolding after
after-IsStaged (reserving w i) s h = elim (reserve-cases w i s) [
  | inl e ↦ subst Staged (sym e) h
  | inr (_, _, e) ↦
      subst Staged (sym e)
        (Each-put IsStaged i.publication_id (reserved_record i) s h (refl, (refl, refl, refl)))
]
after-IsStaged (preparing p n) s h = elim (record_prepared-cases p n s) [
  | inl e ↦ subst Staged (sym e) h
  | inr (r, g, st, d, b, i, e) ↦ subst Staged (sym e) (
      Each-put IsStaged p.publication_id (prepared_record r p) s h (
        prepared-IsStaged p.publication_id r p (Each-get IsStaged p.publication_id s h g) st d b i))
]
after-IsStaged (verifying v n) s h = elim (record_verification-cases v n s) [
  | inl e ↦ subst Staged (sym e) h
  | inr (r, p, g, st, q, d, e) ↦ subst Staged (sym e) (
      Each-put IsStaged v.publication_id (verified_record r p v) s h (
        verified-IsStaged v.publication_id r p v (Each-get IsStaged v.publication_id s h g) st q d
          refl))
]

-- If each record of a ledger stands under its own id and fits its stage, this still holds after
-- every sequence of calls. By its stage a reserved record (version 0) has no head; a prepared
-- one (version 1) has a head of the intent's patch and base, and no verification; a verified one
-- (version 2) has such a head and a verification of exactly that head.
pub after_all-IsStaged :
    (cs : List Call) (s : Publications) → Each IsStaged s → Each IsStaged (after_all cs s)
unfolding after_all
after_all-IsStaged [] s h = h
after_all-IsStaged (c ∷ cs) s h = after_all-IsStaged cs (after c s) (after-IsStaged c s h)

-- the same intent, and the same record once it is verified
abbrev pub Follows : PublicationRecord → PublicationRecord → Type 0
Follows r q = (q.intent ≡ r.intent) × (r.state ≡ verified → q ≡ r)

Follows-put :
    (k j : String) (r u : PublicationRecord) (s : Publications)
    → get k s ≡ some r
    → (get j s ≡ some r → Follows r u)
    → (q : PublicationRecord) × (get k (put j u s) ≡ some q) × Follows r q
Follows-put k j r u s g f = elim (string_eq.dec k j) [
  | yes p ↦ (u, ground (arith, get-put j k u s), f (subst (λ i. get i s ≡ some r) p g))
  | no p ↦ (r, ground (arith, get-put j k u s), (refl, λ _. refl))
]

-- No call drops a publication or changes its intent, and none changes one that is verified.
pub after-Follows :
    (c : Call) (k : String) (r : PublicationRecord) (s : Publications)
    → get k s ≡ some r
    → (q : PublicationRecord) × (get k (after c s) ≡ some q) × Follows r q
unfolding after
after-Follows (reserving w i) k r s g = elim (reserve-cases w i s) [
  | inl e ↦ (r, ap (get k) e ∙ g, (refl, λ _. refl))
  | inr (n, _, e) ↦
      subst (λ z. (q : PublicationRecord) × (get k z ≡ some q) × Follows r q) (sym e)
        (Follows-put k i.publication_id r (reserved_record i) s g (λ h. ground (arith, n, h)))
]
after-Follows (preparing p n) k r s g = elim (record_prepared-cases p n s) [
  | inl e ↦ (r, ap (get k) e ∙ g, (refl, λ _. refl))
  | inr (o, a, st, _, _, _, e) ↦
      subst (λ z. (q : PublicationRecord) × (get k z ≡ some q) × Follows r q) (sym e)
        (Follows-put k p.publication_id r (prepared_record o p) s g
          (λ h. (ground (arith, a, h), λ v. ground (arith, a, h, st, v))))
]
after-Follows (verifying v n) k r s g = elim (record_verification-cases v n s) [
  | inl e ↦ (r, ap (get k) e ∙ g, (refl, λ _. refl))
  | inr (o, p, a, st, _, _, e) ↦
      subst (λ z. (q : PublicationRecord) × (get k z ≡ some q) × Follows r q) (sym e)
        (Follows-put k v.publication_id r (verified_record o p v) s g
          (λ h. (ground (arith, a, h), λ w. ground (arith, a, h, st, w))))
]
