-- ===== src/Infrastructure/Publisher/Exact.antt =====
-- infrastructure/github.py: the receipt of the publisher.
use meta_loop.Infrastructure.Publisher.Requests.{
  IsAnswer, IsGiven, ensure_pull_request-IsAnswer, IsOpenRequest,
  validate_pull_request-IsOpenRequest,
}
use mathlib.Core.Path.{subst}
use meta_loop.Base.Json.{Json}
use meta_loop.Base.Int.{ℤ}
use meta_loop.Models.Publication.{PublicationIntent, PreparedHead}
use meta_loop.Services.Publishing.Remote.{validate_receipt, is_pull_request_of}
use meta_loop.Infrastructure.Publisher.{
  validate_binding, receipt_for, Transport, request_receipt, Settings, LocalGit, reconcile_remote,
  validate_pull_request, validate_local, pull_request_for, find_open_pull_request,
  reconciled_receipt, ensure_pull_request, reconcile_branch, branch_path, is_ref, ensure_ref,
}
use meta_loop.Models.Effect.{
  check_receipt, PublicationReceipt, PublicationEffectIntent, check_pull_request,
}
use meta_loop.Base.{
  String, ◌≡◌, ok, true, some, none, arith, Result-cases, Bool-cases, inl, inr, str_append, Option,
  ap, sym,
}

check_receipt-eq : (c d : PublicationReceipt) → check_receipt c ≡ ok d → c ≡ d
unfolding check_receipt
check_receipt-eq c d h = ground (arith, h)

-- what the binding is checked against
record IsBinding (g : Option LocalGit) (b : Option String) (i : PublicationIntent)
    (p : PreparedHead) (e : PublicationEffectIntent) (x : LocalGit) (y : String) : Type 0 where
  git : g ≡ some x
  branch : b ≡ some y
  base : p.base_sha ≡ i.base_sha
  effect : e.publication_id ≡ i.publication_id

validate_binding-fits :
    (g : Option LocalGit) (b : Option String) (i : PublicationIntent) (p : PreparedHead)
    (e : PublicationEffectIntent) (x : LocalGit) (y : String)
    → validate_binding g b i p e ≡ ok (x, y)
    → IsBinding g b i p e x y
unfolding validate_binding
validate_binding-fits (some g) (some b) i p e x y h = record {
  git = ground (arith, h);
  branch = ground (arith, h);
  base = ground (arith, h);
  effect = ground (arith, h);
}
validate_binding-fits none b i p e x y h = cc
validate_binding-fits (some g) none i p e x y h = cc

receipt_for-fits :
    (i : PublicationIntent) (p : PreparedHead) (e : PublicationEffectIntent) (n : ℤ)
    (c : PublicationReceipt)
    → p.base_sha ≡ i.base_sha
    → e.publication_id ≡ i.publication_id
    → receipt_for i p e n ≡ ok c
    → validate_receipt c p e ≡ ok tt
unfolding receipt_for validate_receipt is_pull_request_of
receipt_for-fits i p e n c b k h =
    elim (Result-cases (check_pull_request (pull_request_for i p n))) [
      | inr (y, a) ↦ ground (arith, a, h)
      | inl (x, a) ↦
          let q = check_receipt-eq (reconciled_receipt i p e n) c (ground (arith, a, h)) in
          subst (λ z. validate_receipt z p e ≡ ok tt) q (ground (arith, b, k))
    ]

receipt_for-names :
    (i : PublicationIntent) (p : PreparedHead) (e : PublicationEffectIntent) (n : ℤ)
    (c : PublicationReceipt)
    → receipt_for i p e n ≡ ok c
    → c.pull_request ≡ some (pull_request_for i p n)
unfolding receipt_for
receipt_for-names i p e n c h = elim (Result-cases (check_pull_request (pull_request_for i p n))) [
  | inr (y, a) ↦ ground (arith, a, h)
  | inl (x, a) ↦
      let q = check_receipt-eq (reconciled_receipt i p e n) c (ground (arith, a, h)) in
      ap (λ z. z.pull_request) (sym q)
]

module _ {R : Type 0} (t : Transport R) where
  request_receipt-number :
      (api branch base : String) (i : PublicationIntent) (p : PreparedHead)
      (e : PublicationEffectIntent) (r : R) (c : PublicationReceipt)
      → (request_receipt t api branch base i p e r).0 ≡ ok c
      → (x : Json) × (n : ℤ) × IsAnswer t api branch base i p r x
        × (validate_pull_request x branch base i p ≡ ok n)
        × (receipt_for i p e n ≡ ok c)
  unfolding request_receipt
  request_receipt-number api branch base i p e r c h =
      elim (Result-cases (find_open_pull_request t api branch base i p r).0) [
        | inr (y, a) ↦ ground (arith, a, h)
        | inl (o, a) ↦
            let r1 = (find_open_pull_request t api branch base i p r).1 in
            elim (Result-cases (ensure_pull_request t api branch base i p o r1).0) [
              | inr (y, b) ↦ ground (arith, a, b, h)
              | inl (x, b) ↦ elim (Result-cases (validate_pull_request x branch base i p)) [
                | inr (y, d) ↦ ground (arith, a, b, d, h)
                | inl (n, d) ↦ (
                  x,
                  n,
                  ensure_pull_request-IsAnswer t api branch base i p o r x a b,
                  d,
                  ground (arith, a, b, d, h),
                )
              ]
            ]
      ]

  reconcile_branch-number :
      (git : LocalGit) (base : String) (i : PublicationIntent) (p : PreparedHead)
      (e : PublicationEffectIntent) (r : R) (c : PublicationReceipt)
      → (reconcile_branch t git base i p e r).0 ≡ ok c
      → (x : Json) × (n : ℤ) × IsGiven t git base i p r x
        × (validate_pull_request x (str_append "meta-loop/" i.publication_id) base i p ≡ ok n)
        × (receipt_for i p e n ≡ ok c)
  unfolding reconcile_branch
  reconcile_branch-number git base i p e r c h =
      let api = str_append "/repos/" i.repository_name in
      let branch = str_append "meta-loop/" i.publication_id in
      elim (Result-cases (t.get_json (branch_path t api base) r).0) [
        | inr (y, a) ↦ ground (arith, a, h)
        | inl (v, a) ↦ elim (Bool-cases (is_ref v (str_append "refs/heads/" base) i.base_sha)) [
          | inr b ↦ ground (arith, a, b, h)
          | inl b ↦
              let r1 = (t.get_json (branch_path t api base) r).1 in
              elim (Result-cases (t.get_optional_json (branch_path t api branch) r1).0) [
                | inr (y, d) ↦ ground (arith, a, b, d, h)
                | inl (o, d) ↦
                    let r2 = (t.get_optional_json (branch_path t api branch) r1).1 in
                    elim (Result-cases (ensure_ref t api branch git p o r2).0) [
                      | inr (y, f) ↦ ground (arith, a, b, d, f, h)
                      | inl (u, f) ↦
                          let (x, n, y, k, l) =
                            request_receipt-number api branch base i p e
                              (ensure_ref t api branch git p o r2).1 c
                              (ground (arith, a, b, d, f, h)) in
                          (x, n, (o, d, y), k, l)
                    ]
              ]
        ]
      ]

  -- A receipt of the publisher is one that the publication service takes, whatever the remote side
  -- answers on the way: it belongs to the effect and its pull request has the exact base, tree and
  -- head; the publisher was enabled and local Git had the head's tree on the intent's base; and the
  -- number in the receipt is that of a pull request which the remote side gave once the refs were
  -- there, as the one open pull request of this branch or on its creation, and which was open, from
  -- this head to this base.
  pub reconcile_remote-fits :
      (settings : Settings) (i : PublicationIntent) (p : PreparedHead) (e : PublicationEffectIntent)
      (r : R) (c : PublicationReceipt)
      → (reconcile_remote t settings i p e r).0 ≡ ok c
      → (validate_receipt c p e ≡ ok tt)
        × (settings.enabled ≡ true)
        × ((git : LocalGit) × (base : String) × (x : Json) × (n : ℤ) × (settings.local_git
                i.repository_name
              ≡ some git)
            × (settings.base_branch i.repository_name ≡ some base)
            × (validate_local git i p ≡ ok tt)
            × IsGiven t git base i p r x
            × IsOpenRequest x (str_append "meta-loop/" i.publication_id) base i p n
            × (c.pull_request ≡ some (pull_request_for i p n)))
  unfolding reconcile_remote
  reconcile_remote-fits settings i p e r c h = elim (Bool-cases settings.enabled) [
    | inr a ↦ ground (arith, a, h)
    | inl a ↦
        elim (Result-cases (
          validate_binding (settings.local_git i.repository_name)
            (settings.base_branch i.repository_name) i p e)) [
              | inr (y, b) ↦ ground (arith, a, b, h)
              | inl ((git, base), b) ↦ elim (Result-cases (validate_local git i p)) [
                | inr (y, d) ↦ ground (arith, a, b, d, h)
                | inl (u, d) ↦
                    let f =
                      validate_binding-fits (settings.local_git i.repository_name)
                        (settings.base_branch i.repository_name) i p e git base b in
                    let (x, n, y, k, l) =
                      reconcile_branch-number git base i p e r c (ground (arith, a, b, d, h)) in
                    (
                      receipt_for-fits i p e n c f.base f.effect l,
                      a,
                      (
                        git,
                        base,
                        x,
                        n,
                        f.git,
                        f.branch,
                        d,
                        y,
                        validate_pull_request-IsOpenRequest x
                            (str_append "meta-loop/" i.publication_id) base i p n k,
                        receipt_for-names i p e n c l,
                      ),
                    )
              ]
            ]
  ]
