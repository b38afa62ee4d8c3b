-- ===== src/Memory/Publications/Stages.antt =====
-- infrastructure/memory.py: the stages of a publication in `InMemoryPublicationLedger`.
use meta_loop.Base.Int.{pos, ℤ, int_eq}
use meta_loop.Base.{
  String, ◌≡◌, ◌⊎◌, none, get, true, some, put, Option-cases, inr, inl, arith, Bool-cases,
  string_eq, Result, if◌then◌else◌, ok, ◌∙◌, err, refl, ◌!=◌, ◌||◌,
}
use meta_loop.Models.Publication.{
  reserved, prepared, verified, PublicationState, PublicationIntent, PublicationRecord,
  PreparedHead, VerificationResult, check_record, publication_state_eq,
}
use meta_loop.Memory.Publications.{
  Publications, References, are_references, reserve, record_prepared, put_checked, is_current,
  reserved_record, prepared_record, was_created, record_verification, verify_head, verified_record,
}

-- What a record holds in each stage. No call leads to the last two states.
abbrev pub StageFits : PublicationState → PublicationRecord → Type 0
StageFits reserved r = (r.version ≡ pos 0) × (r.prepared_head ≡ none) × (r.verification ≡ none)
StageFits prepared r =
    (r.version ≡ pos 1)
    × ((p : PreparedHead) × (r.prepared_head ≡ some p)
        × (p.publication_id ≡ r.intent.publication_id)
        × (p.patch_digest ≡ r.intent.patch_digest)
        × (p.base_sha ≡ r.intent.base_sha))
    × (r.verification ≡ none)
StageFits verified r =
    (r.version ≡ pos 2)
    × ((p : PreparedHead) × (r.prepared_head ≡ some p)
        × (p.publication_id ≡ r.intent.publication_id)
        × (p.patch_digest ≡ r.intent.patch_digest)
        × (p.base_sha ≡ r.intent.base_sha)
        × ((v : VerificationResult) × (r.verification ≡ some v)
            × (v.publication_id ≡ r.intent.publication_id)
            × (v.head_sha ≡ p.head_sha)))
StageFits _ r = ⊥

abbrev pub IsStaged : String → PublicationRecord → Type 0
IsStaged k r = (r.intent.publication_id ≡ k) × StageFits r.state r

put_checked-cases :
    (k : String) (r : PublicationRecord) (s : Publications)
    → ((put_checked k r s).1 ≡ s) ⊎ ((check_record r ≡ ok r) × ((put_checked k r s).1 ≡ put k r s))
unfolding put_checked check_record
put_checked-cases k r s = ground arith

was_created-state : (x : Result PublicationRecord × Publications) → (was_created x).1 ≡ x.1
was_created-state (ok r, s) = refl
was_created-state (err e, s) = refl

-- The three calls change the ledger in one way each, or not at all.
pub reserve-cases :
    (w : References) (i : PublicationIntent) (s : Publications)
    → ((reserve w i s).1 ≡ s)
      ⊎ ((get i.publication_id s ≡ none)
          × (are_references w i ≡ true)
          × ((reserve w i s).1 ≡ put i.publication_id (reserved_record i) s))
unfolding reserve
reserve-cases w i s = elim (Option-cases (get i.publication_id s)) [
  | inr (c, e) ↦ inl (ground arith)
  | inl e ↦ elim (Bool-cases (are_references w i)) [
    | inr b ↦ inl (ground arith)
    | inl b ↦ elim (put_checked-cases i.publication_id (reserved_record i) s) [
      | inl p ↦ inl (rw (e, reserve) (rw (b, if◌then◌else◌) (was_created-state _ ∙ p)))
      | inr (_, p) ↦ inr (e, b, rw (e, reserve) (rw (b, if◌then◌else◌) (was_created-state _ ∙ p)))
    ]
  ]
]

pub record_prepared-cases :
    (p : PreparedHead) (n : ℤ) (s : Publications)
    → ((record_prepared p n s).1 ≡ s)
      ⊎ ((r : PublicationRecord) × (get p.publication_id s ≡ some r)
          × (r.state ≡ reserved)
          × (p.patch_digest ≡ r.intent.patch_digest)
          × (p.base_sha ≡ r.intent.base_sha)
          × (p.publication_id ≡ r.intent.publication_id)
          × ((record_prepared p n s).1 ≡ put p.publication_id (prepared_record r p) s))
unfolding record_prepared is_current check_record
record_prepared-cases p n s = elim (Option-cases (get p.publication_id s)) [
  | inl e ↦ inl (ground arith)
  | inr (r, e) ↦ elim (put_checked-cases p.publication_id (prepared_record r p) s) [
    | inl q ↦ inl (ground arith)
    | inr (c, q) ↦ elim (Bool-cases (r.version != n || r.state != reserved)) [
      | inl b ↦ inl (ground arith)
      | inr b ↦
          elim (Bool-cases
            (r.intent.patch_digest != p.patch_digest || r.intent.base_sha != p.base_sha)) [
              | inl d ↦ inl (ground arith)
              | inr d ↦
                  inr (r, e, ground arith, ground arith, ground arith, ground arith, ground arith)
            ]
    ]
  ]
]

pub record_verification-cases :
    (v : VerificationResult) (n : ℤ) (s : Publications)
    → ((record_verification v n s).1 ≡ s)
      ⊎ ((r : PublicationRecord) × (p : PreparedHead) × (get v.publication_id s ≡ some r)
          × (r.state ≡ prepared)
          × (r.prepared_head ≡ some p)
          × (v.head_sha ≡ p.head_sha)
          × ((record_verification v n s).1 ≡ put v.publication_id (verified_record r p v) s))
unfolding record_verification verify_head is_current
record_verification-cases v n s = elim (Option-cases (get v.publication_id s)) [
  | inl e ↦ inl (ground arith)
  | inr (r, e) ↦ elim (Option-cases r.prepared_head) [
    | inl h ↦ inl (ground arith)
    | inr (p, h) ↦ elim (put_checked-cases v.publication_id (verified_record r p v) s) [
      | inl q ↦ inl (ground arith)
      | inr (c, q) ↦ elim (Bool-cases (r.version != n || r.state != prepared)) [
        | inl b ↦ inl (ground arith)
        | inr b ↦ elim (Bool-cases (p.head_sha != v.head_sha)) [
          | inl d ↦ inl (ground arith)
          | inr d ↦ inr (r, p, e, ground arith, h, ground arith, ground arith)
        ]
      ]
    ]
  ]
]
