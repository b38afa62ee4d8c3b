-- ===== src/Services/Issues/Contract.antt =====
-- application/ingestion.py: what a contract in an issue is parsed to.
use meta_loop.Services.Issues.Terms.{
  IsContract, check_spec_iff, all-All, items_texts-str_items, typed-eq, field_of-elem,
  risk_of-risk_value, is_version_one-eq, as_text-eq, as_texts-eq,
}
use mathlib.Core.Path.{subst}
use meta_loop.Base.Int.{pos}
use meta_loop.Base.Json.{obj, Fields, as_text, field_of, str, arr, num}
use meta_loop.Domain.Enums.{risk_value}
use meta_loop.Services.Issues.{
  IssueTaskSpec, parse_issue_task_spec, Loads, has_secret, marker, fence, str_items, contract,
  typed, one_block, blocks, as_texts, is_version_one, allowed, field_names, has_allowed,
}
use meta_loop.Services.Issues.Fence.{NoTick, blocks-one}
use meta_loop.Base.{
  String, List, ℕ, ◌≡◌, ◌≤◌, ◌++◌, ◌∷◌, [], some, ok, refl, ◌∙◌, arith, codes, len, true, false,
  is_space, sym, length, ◌↔◌, elem, Option-cases, string_eq, inl, Bool-cases, inr, ◌&&◌,
}

contract-IsContract :
    (fs : Fields) (s : IssueTaskSpec) → contract (some (obj fs)) ≡ ok s → IsContract fs s
unfolding contract
contract-IsContract fs s h =
    elim (Bool-cases (has_allowed fs && is_version_one (field_of "schema_version" fs))) [
      | inr a ↦ ground (arith, a, h)
      | inl a ↦ elim (Bool-cases (has_secret fs)) [
        | inl b ↦ ground (arith, a, b, h)
        | inr b ↦
            elim (Option-cases (
              typed (as_text (field_of "objective" fs))
                (as_texts (field_of "acceptance_criteria" fs)) (as_text (field_of "revision" fs))
                (as_text (field_of "risk" fs)))) [
                  | inl c ↦ ground (arith, a, b, c, h)
                  | inr (x, c) ↦
                      let (q, v) = (check_spec_iff x s).0 (ground (arith, a, b, c, h)) in
                      let (k, l, m, n) =
                        typed-eq (as_text (field_of "objective" fs))
                          (as_texts (field_of "acceptance_criteria" fs))
                          (as_text (field_of "revision" fs)) (as_text (field_of "risk" fs)) x c in
                      subst (IsContract fs) q (
                        (all-All (λ j. elem j allowed) (field_names fs)).0 (ground (arith, a)),
                        is_version_one-eq (field_of "schema_version" fs) (ground (arith, a)),
                        as_text-eq (field_of "objective" fs) x.objective k,
                        as_texts-eq (field_of "acceptance_criteria" fs) x.acceptance_criteria l,
                        as_text-eq (field_of "revision" fs) x.revision m,
                        as_text-eq (field_of "risk" fs) (risk_value x.risk) n,
                        b,
                        v,
                      )
                ]
      ]
    ]

has_allowed-IsContract : (fs : Fields) (s : IssueTaskSpec) → IsContract fs s → has_allowed fs ≡ true
has_allowed-IsContract fs s (n, a, b, c, d, e, _, _) = ground (
  arith,
  (all-All (λ j. elem j allowed) (field_names fs)).1 n,
  field_of-elem "schema_version" fs (num (pos 1)) a,
  field_of-elem "objective" fs (str s.objective) b,
  field_of-elem "acceptance_criteria" fs (arr (str_items s.acceptance_criteria)) c,
  field_of-elem "revision" fs (str s.revision) d,
  field_of-elem "risk" fs (str (risk_value s.risk)) e,
)

IsContract-contract :
    (fs : Fields) (s : IssueTaskSpec) → IsContract fs s → contract (some (obj fs)) ≡ ok s
unfolding contract typed
IsContract-contract fs s k =
    let m = has_allowed-IsContract fs s k in
    let (_, a, b, c, d, e, n, v) = k in
    ground (
      arith,
      m,
      a,
      b,
      c,
      d,
      e,
      n,
      items_texts-str_items s.acceptance_criteria,
      risk_of-risk_value s.risk,
      (check_spec_iff s s).1 (refl, v),
    )

blocks-list :
    (t before after w c : List ℕ) (x : ℕ)
    → is_space x ≡ false
    → w ≡ x ∷ c
    → NoTick w
    → NoTick before
    → NoTick after
    → t ≡ before ++ marker ++ 10 ∷ w ++ fence ++ after
    → blocks (length t) t ≡ w ∷ []
blocks-list t before after w c x b e h p q f =
    let whole = λ (v : List ℕ). before ++ marker ++ 10 ∷ v ++ fence ++ after in
    subst (λ v. blocks (length v) v ≡ w ∷ []) (sym f)
      (subst (λ v. NoTick v → blocks (length (whole v)) (whole v) ≡ v ∷ []) (sym e)
        (λ k. blocks-one (length (whole (x ∷ c))) x before c after b p k q (omega arith)) h)

blocks-body :
    (body : String) (before after w c : List ℕ) (x : ℕ)
    → is_space x ≡ false
    → w ≡ x ∷ c
    → NoTick w
    → NoTick before
    → NoTick after
    → codes body ≡ before ++ marker ++ 10 ∷ w ++ fence ++ after
    → blocks (len body) (codes body) ≡ w ∷ []
blocks-body body before after w c x b e h p q f =
    blocks-list (codes body) before after w c x b e h p q f

-- What a contract in an issue means. Let the text have at most 65536 characters, without backticks
-- but for one fenced block whose content begins with another character than white space, and let the
-- reader of JSON give an object for this content. Then the text is parsed to a task exactly if the
-- object is the contract of that task: with no other fields than the five, in any order, each holding
-- its part of the task, in the version one, within the limits, and without a marker of a credential.
pub parse_written_iff :
    (loads : Loads) (body : String) (before after w c : List ℕ) (x : ℕ) (fs : Fields)
    (s : IssueTaskSpec)
    → is_space x ≡ false
    → w ≡ x ∷ c
    → NoTick w
    → NoTick before
    → NoTick after
    → codes body ≡ before ++ marker ++ 10 ∷ w ++ fence ++ after
    → len body ≤ 65536
    → loads w ≡ some (obj fs)
    → (parse_issue_task_spec loads body ≡ ok s) ↔ IsContract fs s
unfolding parse_issue_task_spec one_block
parse_written_iff loads body before after w c x fs s b e h p q f l r =
    let k : parse_issue_task_spec loads body ≡ contract (some (obj fs)) =
      ground (arith, blocks-body body before after w c x b e h p q f, l, r) in
    (λ g. contract-IsContract fs s (sym k ∙ g), λ g. k ∙ IsContract-contract fs s g)
