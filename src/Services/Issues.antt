-- ===== src/Services/Issues.antt =====
-- application/ingestion.py: the contract that an issue's text holds, and the candidates.
pub mod Fence
pub mod Search
pub mod Terms
pub mod Contract
use meta_loop.Base.Clock.{Time, isoformat}
use meta_loop.Base.Int.{pos, int_eq}
use meta_loop.Models.Identity.{is_phase8_sha}
use meta_loop.Domain.Enums.{RiskClass, risk_value, r0, r1, r2, r3}
use Prim.Native.Char.{code}
use meta_loop.Base.Json.{
  Json, Items, Fields, obj, field, num, str, arr, nil, cons, text, end, dumps, field_of, as_text,
}
use meta_loop.Base.{
  String, List, ℕ, Bool, Option, Result, [], ◌∷◌, some, none, ok, err, guard, if◌then◌else◌, ◌==◌,
  ◌||◌, ◌&&◌, not, all, any, leb, ltb, validation, codes, len, drop_prefix, contains, is_space,
  is_blank, is_empty, lower, map, length, elem, nat_eq, string_eq, zero, suc, false,
}

pub record IssueTaskSpec : Type 0 where
  pub objective : String
  pub acceptance_criteria : List String
  pub revision : String
  pub risk : RiskClass

-- `IssueTaskSpec.__post_init__`
unfoldable pub check_spec : IssueTaskSpec → Result IssueTaskSpec
check_spec s =
    guard
      (is_blank s.objective
        || ltb 4096 (len s.objective)
        || not (leb 1 (length s.acceptance_criteria) && leb (length s.acceptance_criteria) 20))
      validation
      (guard (any (λ v. is_blank v || ltb 512 (len v)) s.acceptance_criteria) validation
        (guard (not (is_phase8_sha s.revision 40)) validation (ok s)))

abbrev pub str_items : List String → Items
str_items [] = nil
str_items (s ∷ ss) = cons (str s) (str_items ss)

abbrev pub spec_to_json : IssueTaskSpec → Json
spec_to_json s = obj (
    field "schema_version" (num (pos 1)) (
      field "objective" (str s.objective) (
        field "acceptance_criteria" (arr (str_items s.acceptance_criteria))
          (field "revision" (str s.revision) (field "risk" (str (risk_value s.risk)) end)))))

-- `IssueTaskSpec.canonical`
unfoldable pub spec_canonical : IssueTaskSpec → List ℕ
spec_canonical s = dumps (spec_to_json s)

abbrev pub fence : List ℕ
fence = codes "```"

abbrev pub marker : List ℕ
marker = codes "```meta-loop-json"

-- `\s*\n`: what follows the last line end of the white space
unfoldable pub skip_line : List ℕ → Option (List ℕ)
skip_line [] = none
skip_line (c ∷ s) =
    let rest = skip_line s in
    if not (is_space c)
    then none
    else elim rest [ some r ↦ some r | none ↦ if c == 10 then some s else none ]

-- `(.*?)` and the fence: what stands before the first fence, and what follows it
unfoldable pub until_fence : List ℕ → Option (List ℕ × List ℕ)
until_fence [] = none
until_fence (c ∷ s) =
    let rest = until_fence s in
    elim (drop_prefix fence (c ∷ s)) [
      | some r ↦ some ([], r)
      | none ↦ elim rest [ none ↦ none | some (b, r) ↦ some (c ∷ b, r) ]
    ]

-- the pattern at the beginning of a text
unfoldable pub block_at : List ℕ → Option (List ℕ × List ℕ)
block_at s = elim (drop_prefix marker s) [
  | none ↦ none
  | some r ↦ elim (skip_line r) [ none ↦ none | some t ↦ until_fence t ]
]

-- `_FENCE.findall`, with fuel for each character
unfoldable pub blocks : ℕ → List ℕ → List (List ℕ)
blocks zero s = []
blocks (suc n) [] = []
blocks (suc n) (c ∷ s) = elim (block_at (c ∷ s)) [
  | some (b, r) ↦ b ∷ blocks n r
  | none ↦ blocks n s
]

-- `json.loads` with the hook: nothing where the text is not JSON or repeats a key. The items of an
-- object stand in the order of the text. A number with a fraction or an exponent, which no field may
-- have, is read as `null`.
abbrev pub Loads : Type 0
Loads = List ℕ → Option Json

abbrev pub field_names : Fields → List String
field_names end = []
field_names (field j v fs) = j ∷ field_names fs

abbrev pub allowed : List String
allowed = "schema_version" ∷ "objective" ∷ "acceptance_criteria" ∷ "revision" ∷ "risk" ∷ []

-- `set(value) == allowed`
abbrev pub has_allowed : Fields → Bool
has_allowed fs =
    all (λ k. elem k allowed) (field_names fs) && all (λ k. elem k (field_names fs)) allowed

abbrev pub items_texts : Items → Option (List String)
items_texts nil = some []
items_texts (cons (str s) xs) = elim (items_texts xs) [ none ↦ none | some ss ↦ some (s ∷ ss) ]
items_texts (cons _ xs) = none

abbrev pub as_texts : Option Json → Option (List String)
as_texts (some (arr xs)) = items_texts xs
as_texts _ = none

abbrev pub is_version_one : Option Json → Bool
is_version_one (some (num n)) = n == pos 1
is_version_one _ = false

-- `RiskClass(value)`
abbrev pub risk_of : String → Option RiskClass
risk_of s =
    if s == "R0"
    then some r0
    else if s == "R1"
    then some r1
    else if s == "R2"
    then some r2
    else if s == "R3"
    then some r3
    else none

abbrev pub secret_markers : List (List ℕ)
secret_markers =
    codes "github_pat_"
    ∷ codes "ghp_"
    ∷ codes "-----begin private key-----"
    ∷ codes "aws_secret_access_key"
    ∷ []

unfoldable pub has_secret : Fields → Bool
has_secret fs =
    let canonical = map lower (dumps (obj fs)) in any (λ m. contains m canonical) secret_markers

-- the fields of the contract, each of its type
unfoldable pub typed :
    Option String → Option (List String) → Option String → Option String → Option IssueTaskSpec
typed (some objective) (some criteria) (some revision) (some risk) = elim (risk_of risk) [
  | none ↦ none
  | some r ↦ some (record {
    objective = objective;
    acceptance_criteria = criteria;
    revision = revision;
    risk = r;
  })
]
typed _ _ _ _ = none

-- what follows `json.loads`; every test raises the same error
unfoldable pub contract : Option Json → Result IssueTaskSpec
contract (some (obj fs)) =
    guard (not (has_allowed fs && is_version_one (field_of "schema_version" fs))) validation (
      guard (has_secret fs) validation
        (elim (typed (as_text (field_of "objective" fs))
          (as_texts (field_of "acceptance_criteria" fs)) (as_text (field_of "revision" fs))
          (as_text (field_of "risk" fs))) [ none ↦ err validation | some s ↦ check_spec s ]))
contract _ = err validation

-- exactly one block
unfoldable pub one_block : List (List ℕ) → Option (List ℕ)
one_block (b ∷ []) = some b
one_block _ = none

-- `parse_issue_task_spec`
unfoldable pub parse_issue_task_spec : Loads → String → Result IssueTaskSpec
parse_issue_task_spec loads body =
    guard (ltb 65536 (len body)) validation (elim (one_block (blocks (len body) (codes body))) [
      | none ↦ err validation
      | some b ↦ contract (loads b)
    ])

pub record IssueCandidate : Type 0 where
  pub provider : String
  pub source_key : String
  pub source_reference : String
  pub trigger_event_id : String
  pub trigger_actor : String
  pub trigger_label : String
  pub occurred_at : Time
  pub spec : IssueTaskSpec

-- `IssueCandidate.__post_init__`
unfoldable pub check_candidate : IssueCandidate → Result IssueCandidate
check_candidate c =
    guard
      (is_empty c.provider
        || is_empty c.source_key
        || is_empty c.source_reference
        || is_empty c.trigger_event_id
        || is_empty c.trigger_actor
        || is_empty c.trigger_label)
      validation (guard (not (elem b'#' (codes c.source_reference))) validation (ok c))

-- `s.split("#", 1)[0]`
before_hash : String → String
before_hash String.[] = ""
before_hash (String.◌∷◌ c s) =
    let rest = before_hash s in if code c == b'#' then "" else String.◌∷◌ c rest

-- `IssueCandidate.repository_name`
unfoldable pub repository_name : IssueCandidate → String
unfolding before_hash
repository_name c = before_hash c.source_reference

-- `IssueCandidate.canonical`; `json.loads` gives back what `spec.canonical()` was written from
unfoldable pub candidate_canonical : IssueCandidate → List ℕ
candidate_canonical c = dumps (
    obj (
      field "schema_version" (num (pos 1)) (
        field "provider" (str c.provider) (
          field "source_key" (str c.source_key) (
            field "source_reference" (str c.source_reference) (
              field "trigger_event_id" (str c.trigger_event_id) (
                field "trigger_actor" (str c.trigger_actor) (
                  field "trigger_label" (str c.trigger_label) (
                    field "occurred_at" (text (isoformat c.occurred_at))
                      (field "spec" (spec_to_json c.spec) end))))))))))
