-- ===== src/Infrastructure/Publisher/Requests.antt =====
-- infrastructure/github.py: the pull request that the remote side gives.
use meta_loop.Base.Json.{Json, arr, num, cons, nil}
use meta_loop.Base.Int.{ℤ, pos}
use meta_loop.Models.Publication.{PublicationIntent, PreparedHead}
use meta_loop.Infrastructure.Publisher.{
  Transport, LocalGit, validate_pull_request, find_open_pull_request, ensure_pull_request,
  branch_path, ensure_ref, text_at, positive, at_most_one, pulls_path, check_found_request,
  value_at, owner_of, new_request,
}
use meta_loop.Base.{
  String, ◌≡◌, ok, some, none, arith, Result-cases, inl, inr, str_append, Option, Option-cases, ap,
  ◌∙◌, ℕ, ◌⊎◌,
}

-- the value is an open pull request of that number, from the branch at the prepared head to the base
-- branch at the intent's base
pub record IsOpenRequest (x : Json) (branch base : String) (i : PublicationIntent)
    (p : PreparedHead) (n : ℤ) : Type 0 where
  pub state : text_at "state" (some x) ≡ some "open"
  pub number : value_at "number" x ≡ some (num n)
  pub base_sha : text_at "sha" (value_at "base" x) ≡ some i.base_sha
  pub base_ref : text_at "ref" (value_at "base" x) ≡ some base
  pub head_sha : text_at "sha" (value_at "head" x) ≡ some p.head_sha
  pub head_ref : text_at "ref" (value_at "head" x) ≡ some branch

positive-num : (o : Option Json) (n : ℕ) → positive o ≡ some n → o ≡ some (num (pos n))
unfolding positive
positive-num (some (num (pos m))) n h = ground (arith, h)
positive-num _ n h = cc

pub validate_pull_request-IsOpenRequest :
    (x : Json) (branch base : String) (i : PublicationIntent) (p : PreparedHead) (n : ℤ)
    → validate_pull_request x branch base i p ≡ ok n
    → IsOpenRequest x branch base i p n
unfolding validate_pull_request
validate_pull_request-IsOpenRequest x branch base i p n h =
    elim (Option-cases (positive (value_at "number" x))) [
      | inl a ↦ ground (arith, a, h)
      | inr (m, a) ↦
          let k = positive-num (value_at "number" x) m a in
          let q : pos m ≡ n = ground (arith, a, h) in
          record {
            state = ground (arith, a, h);
            number = k ∙ ap (λ z. some (num z)) q;
            base_sha = ground (arith, a, h);
            base_ref = ground (arith, a, h);
            head_sha = ground (arith, a, h);
            head_ref = ground (arith, a, h);
          }
    ]

at_most_one-list : (v x : Json) → at_most_one v ≡ some (some x) → v ≡ arr (cons x nil)
unfolding at_most_one
at_most_one-list (arr (cons y nil)) x h = ground (arith, h)
at_most_one-list _ x h = cc

module _ {R : Type 0} (t : Transport R) where
  -- the remote side gives the value in this state: as the one item of the list of open pull requests,
  -- or then as its answer to the creation of this pull request
  abbrev pub IsAnswer :
      String → String → String → PublicationIntent → PreparedHead → R → Json → Type 0
  IsAnswer api branch base i p r x =
      ((t.get_json (pulls_path t api (owner_of i.repository_name) branch base) r).0
        ≡ ok (arr (cons x nil)))
      ⊎ ((t.post_json (str_append api "/pulls") (new_request branch base i p)
            (find_open_pull_request t api branch base i p r).1).0
          ≡ ok x)

  -- the value is what the remote side gives in the state that the refs of this run leave
  abbrev pub IsGiven : LocalGit → String → PublicationIntent → PreparedHead → R → Json → Type 0
  IsGiven git base i p r x =
      let api = str_append "/repos/" i.repository_name in
      let branch = str_append "meta-loop/" i.publication_id in
      let asked =
        t.get_optional_json (branch_path t api branch) (t.get_json (branch_path t api base) r).1 in
      (o : Option Json) × (asked.0 ≡ ok o)
      × IsAnswer api branch base i p (ensure_ref t api branch git p o asked.1).1 x

  check_found_request-same :
      (o : Option Json) (branch base : String) (i : PublicationIntent) (p : PreparedHead) (r : R)
      (x : Json)
      → (check_found_request o branch base i p r).0 ≡ ok (some x)
      → o ≡ some x
  unfolding check_found_request
  check_found_request-same none branch base i p r x h = cc
  check_found_request-same (some y) branch base i p r x h =
      elim (Result-cases (validate_pull_request y branch base i p)) [
        | inr (z, a) ↦ ground (arith, a, h)
        | inl (n, a) ↦ ground (arith, a, h)
      ]

  find_open_pull_request-IsAnswer :
      (api branch base : String) (i : PublicationIntent) (p : PreparedHead) (r : R) (x : Json)
      → (find_open_pull_request t api branch base i p r).0 ≡ ok (some x)
      → IsAnswer api branch base i p r x
  unfolding find_open_pull_request
  find_open_pull_request-IsAnswer api branch base i p r x h =
      let path = pulls_path t api (owner_of i.repository_name) branch base in
      elim (Result-cases (t.get_json path r).0) [
        | inr (y, a) ↦ ground (arith, a, h)
        | inl (v, a) ↦ elim (Option-cases (at_most_one v)) [
          | inl b ↦ ground (arith, a, b, h)
          | inr (o, b) ↦
              let q =
                check_found_request-same o branch base i p (t.get_json path r).1 x
                  (ground (arith, a, b, h)) in
              inl (a ∙ ap ok (at_most_one-list v x (b ∙ ap some q)))
        ]
      ]

  pub ensure_pull_request-IsAnswer :
      (api branch base : String) (i : PublicationIntent) (p : PreparedHead) (o : Option Json)
      (r : R) (x : Json)
      → (find_open_pull_request t api branch base i p r).0 ≡ ok o
      → (ensure_pull_request t api branch base i p o
          (find_open_pull_request t api branch base i p r).1).0
        ≡ ok x
      → IsAnswer api branch base i p r x
  unfolding ensure_pull_request
  ensure_pull_request-IsAnswer api branch base i p none r x f h = inr h
  ensure_pull_request-IsAnswer api branch base i p (some y) r x f h =
      let q : y ≡ x = ground (arith, h) in
      find_open_pull_request-IsAnswer api branch base i p r x (f ∙ ap (λ z. ok (some z)) q)
