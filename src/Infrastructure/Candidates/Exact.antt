-- ===== src/Infrastructure/Candidates/Exact.antt =====
-- infrastructure/publication.py: the prepared head and the verification against what the services ask.
use meta_loop.Base.Int.{pos}
use meta_loop.Models.Publication.{passed}
use mathlib.Core.Path.{subst}
use meta_loop.Infrastructure.Patches.{Decode, Shlex, validate_patch}
use meta_loop.Infrastructure.Candidates.{
  commit_candidate, prepare_candidate, result_of, verify, Worktree, finally, head_of, Sandbox,
  validate_index, returned, verification_of, code_of, validate_candidate, validate_checkout,
  Completed,
}
use meta_loop.Models.Publication.{
  check_prepared, PublicationIntent, PreparedHead, check_verification, VerificationResultCode,
  VerificationResult, VerificationStatus,
}
use meta_loop.Services.Publishing.Preparation.{is_candidate_of}
use meta_loop.Base.{
  String, List, ℕ, ◌≡◌, ◌↔◌, ok, true, arith, Result-cases, Bool-cases, inl, inr, ◌==◌, refl,
  string_eq,
}

head_of-candidate :
    (i : PublicationIntent) (t h : String) → is_candidate_of (head_of i t h) i ≡ true
unfolding is_candidate_of
head_of-candidate i t h = ground arith

check_prepared-eq : (p q : PreparedHead) → check_prepared p ≡ ok q → p ≡ q
unfolding check_prepared
check_prepared-eq p q h = ground (arith, h)

commit_candidate-fits :
    (git : Worktree) (i : PublicationIntent) (h : PreparedHead)
    → commit_candidate git i ≡ ok h
    → (is_candidate_of h i ≡ true)
      × (git.write_tree ≡ ok h.tree_sha)
      × (git.commit_tree h.tree_sha ≡ ok h.head_sha)
unfolding commit_candidate
commit_candidate-fits git i h e = elim (Result-cases git.write_tree) [
  | inr (y, a) ↦ ground (arith, a, e)
  | inl (t, a) ↦ elim (Result-cases (git.commit_tree t)) [
    | inr (y, b) ↦ ground (arith, a, b, e)
    | inl (c, b) ↦
        let q : head_of i t c ≡ h = check_prepared-eq (head_of i t c) h (ground (arith, a, b, e)) in
        subst
          (λ z.
            (is_candidate_of z i ≡ true)
            × (git.write_tree ≡ ok z.tree_sha)
            × (git.commit_tree z.tree_sha ≡ ok z.head_sha))
          q (head_of-candidate i t c, a, b)
  ]
]

-- The preparer meets what the preparation service asks of it: a head that it returns is a candidate
-- of the intent, for the tree and the commit that Git has written; the patch has the intent's digest
-- and has passed the tests on patches, and Git's index the tests on modes and paths.
pub prepare_candidate_lem :
    (sha256 : List ℕ → String) (decode : Decode) (shlex : Shlex) (git : Worktree)
    (i : PublicationIntent) (patch : List ℕ) (h : PreparedHead)
    → prepare_candidate sha256 decode shlex git i patch ≡ ok h
    → (is_candidate_of h i ≡ true)
      × (git.write_tree ≡ ok h.tree_sha)
      × (git.commit_tree h.tree_sha ≡ ok h.head_sha)
      × (sha256 patch ≡ i.patch_digest)
      × (validate_patch decode shlex patch ≡ ok tt)
      × (validate_index decode git.ls_files ≡ ok tt)
unfolding prepare_candidate finally
prepare_candidate_lem sha256 decode shlex git i patch h e =
    elim (Bool-cases (sha256 patch == i.patch_digest)) [
      | inr a ↦ ground (arith, a, e)
      | inl a ↦ elim (Result-cases (validate_patch decode shlex patch)) [
        | inr (y, b) ↦ ground (arith, a, b, e)
        | inl (_, b) ↦ elim (Result-cases git.checkout) [
          | inr (y, c) ↦ ground (arith, a, b, c, e)
          | inl (_, c) ↦ elim (Result-cases git.release) [
            | inr (y, d) ↦ ground (arith, a, b, c, d, e)
            | inl (_, d) ↦ elim (Result-cases git.apply_patch) [
              | inr (y, f) ↦ ground (arith, a, b, c, d, f, e)
              | inl (_, f) ↦ elim (Result-cases (validate_index decode git.ls_files)) [
                | inr (y, g) ↦ ground (arith, a, b, c, d, f, g, e)
                | inl (_, g) ↦
                    let k = commit_candidate-fits git i h (ground (arith, a, b, c, d, f, g, e)) in
                    (k.0, k.1, k.2, ground (arith, a), b, g)
              ]
            ]
          ]
        ]
      ]
    ]

check_verification-eq : (x v : VerificationResult) → check_verification x ≡ ok v → x ≡ v
unfolding check_verification
check_verification-eq x v h = ground (arith, h)

-- the verification is about the head, and has the status of its code
record IsOf (p : PreparedHead) (code : VerificationResultCode) (v : VerificationResult)
    : Type 0 where
  publication : v.publication_id ≡ p.publication_id
  head : v.head_sha ≡ p.head_sha
  status : (v.status ≡ VerificationStatus.succeeded) ↔ (code ≡ passed)

verification_of-IsOf :
    (image : String) (p : PreparedHead) (code : VerificationResultCode)
    → IsOf p code (verification_of image p code)
verification_of-IsOf image p code = record {
  publication = refl;
  head = refl;
  status = ((λ e. ground (arith, e)), (λ e. ground (arith, e)));
}

result_of-IsOf :
    (image : String) (p : PreparedHead) (code : VerificationResultCode) (v : VerificationResult)
    → result_of image p code ≡ ok v
    → IsOf p code v
unfolding result_of
result_of-IsOf image p code v h =
    subst (IsOf p code) (check_verification-eq (verification_of image p code) v h)
      (verification_of-IsOf image p code)

code_of_iff : (c : Completed) → (code_of c ≡ passed) ↔ (c ≡ returned (pos 0))
unfolding code_of
code_of_iff Completed.timed_out = ((λ e. cc), (λ e. cc))
code_of_iff Completed.os_error = ((λ e. cc), (λ e. cc))
code_of_iff (Completed.returned n) = ((λ e. ground (arith, e)), (λ e. ground (arith, e)))

validate_candidate-fits :
    (i : PublicationIntent) (p : PreparedHead) (u : Unit {0})
    → validate_candidate i p ≡ ok u
    → is_candidate_of p i ≡ true
unfolding validate_candidate is_candidate_of
validate_candidate-fits i p u h = ground (arith, h)

validate_checkout-fits :
    (b : Sandbox) (p : PreparedHead) (u : Unit {0})
    → validate_checkout b p ≡ ok u
    → (b.head ≡ ok p.head_sha) × (b.tree ≡ ok p.tree_sha) × (b.parent ≡ ok p.base_sha)
unfolding validate_checkout
validate_checkout-fits b p u h = elim (Result-cases b.head) [
  | inr (y, a) ↦ ground (arith, a, h)
  | inl (x, a) ↦ elim (Result-cases b.tree) [
    | inr (y, c) ↦ ground (arith, a, c, h)
    | inl (t, c) ↦ elim (Result-cases b.parent) [
      | inr (y, d) ↦ ground (arith, a, c, d, h)
      | inl (q, d) ↦
          (ground (arith, a, c, d, h), ground (arith, a, c, d, h), ground (arith, a, c, d, h))
    ]
  ]
]

-- A verification that is returned is about the prepared head, whose commit, tree and parent the
-- checkout had, and of a candidate of the intent; it has succeeded exactly if the container has
-- returned with the code 0.
pub verify_lem :
    (b : Sandbox) (image : String) (i : PublicationIntent) (p : PreparedHead)
    (v : VerificationResult)
    → verify b image i p ≡ ok v
    → (v.publication_id ≡ p.publication_id)
      × (v.head_sha ≡ p.head_sha)
      × ((b.head ≡ ok p.head_sha) × (b.tree ≡ ok p.tree_sha) × (b.parent ≡ ok p.base_sha))
      × (is_candidate_of p i ≡ true)
      × ((v.status ≡ VerificationStatus.succeeded) ↔ (b.completed ≡ returned (pos 0)))
unfolding verify finally
verify_lem b image i p v h = elim (Result-cases (validate_candidate i p)) [
  | inr (y, a) ↦ ground (arith, a, h)
  | inl (u, a) ↦ elim (Result-cases b.release) [
    | inr (y, c) ↦ ground (arith, a, c, h)
    | inl (_, c) ↦ elim (Result-cases b.checkout) [
      | inr (y, d) ↦ ground (arith, a, c, d, h)
      | inl (_, d) ↦ elim (Result-cases (validate_checkout b p)) [
        | inr (y, e) ↦ ground (arith, a, c, d, e, h)
        | inl (w, e) ↦
            let k =
              result_of-IsOf image p (code_of b.completed) v (ground (arith, a, c, d, e, h)) in
            let q = code_of_iff b.completed in
            (
              k.publication,
              k.head,
              validate_checkout-fits b p w e,
              validate_candidate-fits i p u a,
              ((λ z. q.0 (k.status.0 z)), (λ z. k.status.1 (q.1 z))),
            )
      ]
    ]
  ]
]
