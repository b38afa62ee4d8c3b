-- ===== src/Infrastructure/Publisher.antt =====
-- infrastructure/github.py: `GitHubPublicationPublisher`, over a remote side whose state is left open.
pub mod Requests
pub mod Exact
use Prim.Native.Char.{code}
use meta_loop.Base.Int.{ℤ, pos}
use meta_loop.Models.Effect.{
  PublicationEffectIntent, PullRequestReceipt, PublicationReceipt, reconciled, check_pull_request,
  check_receipt,
}
use meta_loop.Models.Publication.{PublicationIntent, PreparedHead}
use meta_loop.Base.{◌>>=◌, ◌>>◌, list_eq, nat_eq, raise, other_error}
use meta_loop.Base.Json.{
  Json, Fields, Items, obj, field, end, str, num, arr, null, nil, cons, field_of, as_text,
  items_list,
}
use meta_loop.Base.{
  String, List, ℕ, Bool, Option, Result, Exec, [], ◌∷◌, some, none, ok, err, guard, if◌then◌else◌,
  ◌==◌, ◌!=◌, ◌||◌, ◌&&◌, not, all, any, leb, ltb, validation, codes, len, length, nat_eq,
  string_eq, option_eq, str_append, true, false, pure, lift, raise_if, drop_prefix, starts_with,
  contains, is_space, or_raise,
}

-- the transport on a remote state, and `quote` with and without `/` as a safe character
pub record Transport (R : Type 0) : Type 0 where
  pub get_json : String → Exec R Json
  pub get_optional_json : String → Exec R (Option Json)
  pub post_json : String → Json → Exec R Json
  pub quote_path : String → String
  pub quote_all : String → String

-- A changed path with what Git gives or raises for it: the mode in the base for a deletion; the mode,
-- the blob's SHA and the base64 text of its content for `A` and `M`; nothing for another status.
pub data Change : Type 0 where
  deleted : String → Result String → Change
  written : String → Result (String × String × String) → Change
  unsupported : Change

-- what local Git gives or raises in the head's repository
pub record LocalGit : Type 0 where
  pub is_dir : Bool
  pub tree : Result String
  pub parent : Result String
  pub base_tree : Result String
  pub changes : Result (List Change)
  pub metadata : Result Json

-- the configuration of the publisher
pub record Settings : Type 0 where
  pub enabled : Bool
  pub base_branch : String → Option String
  pub local_git : String → Option LocalGit

-- `value in " ~^:?*[\\"`, control characters
unfoldable pub is_bad_char : ℕ → Bool
is_bad_char c =
    c == b' '
    || c == b'~'
    || c == b'^'
    || c == b':'
    || c == b'?'
    || c == b'*'
    || c == b'['
    || c == b'\\'
    || ltb c 32
    || c == 127

unfoldable pub ends_with : List ℕ → List ℕ → Bool
ends_with p [] = p == []
ends_with p (c ∷ s) = let rest = ends_with p s in p == c ∷ s || rest

unfoldable pub ends_in_space : List ℕ → Bool
ends_in_space [] = false
ends_in_space (c ∷ []) = is_space c
ends_in_space (c ∷ d ∷ s) = ends_in_space (d ∷ s)

-- `value == value.strip()`
unfoldable pub is_stripped : List ℕ → Bool
is_stripped [] = true
is_stripped (c ∷ s) = not (is_space c) && not (ends_in_space (c ∷ s))

-- `_safe_branch`
unfoldable pub safe_branch : String → Bool
safe_branch value =
    let s = codes value in
    leb 1 (length s)
    && leb (length s) 128
    && is_stripped s
    && not (starts_with (codes "/") s || starts_with (codes ".") s)
    && not (ends_with (codes "/") s || ends_with (codes ".") s || ends_with (codes ".lock") s)
    && not (contains (codes "..") s || contains (codes "//") s || contains (codes "@{") s)
    && not (any is_bad_char s)

-- `_validate_binding`, which gives the base branch
unfoldable pub validate_binding :
    Option LocalGit
    → Option String
    → PublicationIntent
    → PreparedHead
    → PublicationEffectIntent
    → Result (LocalGit × String)
validate_binding (some git) (some base_branch) i p e =
    let expected = str_append "refs/heads/meta-loop/" i.publication_id in
    guard
      (p.publication_id != i.publication_id
        || p.patch_digest != i.patch_digest
        || p.base_sha != i.base_sha
        || p.deterministic_ref != expected
        || e.publication_id != i.publication_id
        || e.head_sha != p.head_sha
        || e.deterministic_ref != expected)
      validation (guard (not (safe_branch base_branch)) validation (ok (git, base_branch)))
validate_binding _ _ i p e = err validation

-- `_validate_local_candidate`
unfoldable pub validate_local : LocalGit → PublicationIntent → PreparedHead → Result (Unit {0})
validate_local git i p = guard (not git.is_dir) validation (elim git.tree [
  | err e ↦ err e
  | ok tree ↦ elim git.parent [
    | err e ↦ err e
    | ok parent ↦ guard (tree != p.tree_sha || parent != i.base_sha) validation (ok tt)
  ]
])

-- `value.get(k)` of a value that is a `dict`
unfoldable pub text_at : String → Option Json → Option String
text_at k (some (obj fs)) = as_text (field_of k fs)
text_at k _ = none

unfoldable pub value_at : String → Json → Option Json
value_at k (obj fs) = field_of k fs
value_at k _ = none

unfoldable pub is_ref : Json → String → String → Bool
is_ref value expected_ref expected_sha =
    let object = value_at "object" value in
    text_at "ref" (some value) == some expected_ref
    && text_at "type" object == some "commit"
    && text_at "sha" object == some expected_sha

-- `value["number"]` as a positive integer
unfoldable pub positive : Option Json → Option ℕ
positive (some (num (pos n))) = if ltb 0 n then some n else none
positive _ = none

-- `_validate_pull_request`
unfoldable pub validate_pull_request :
    Json → String → String → PublicationIntent → PreparedHead → Result ℤ
validate_pull_request value publication_branch base_branch i p =
    let base = value_at "base" value in
    let head = value_at "head" value in
    guard (not (text_at "state" (some value) == some "open")) validation
      (elim (positive (value_at "number" value)) [
        | none ↦ err validation
        | some n ↦
            guard
              (not (
                text_at "sha" base == some i.base_sha
                && text_at "ref" base == some base_branch
                && text_at "sha" head == some p.head_sha
                && text_at "ref" head == some publication_branch))
              validation (ok (pos n))
      ])

abbrev entry : String → String → Json → Json
entry path mode sha = obj (
    field "path" (str path)
      (field "mode" (str mode) (field "type" (str "blob") (field "sha" sha end))))

unfoldable pub is_object : Json → Bool
is_object (obj fs) = true
is_object _ = false

-- `repository.split("/", 1)[0]`
unfoldable pub owner_of : String → String
owner_of String.[] = ""
owner_of (String.◌∷◌ c s) =
    let rest = owner_of s in if code c == b'/' then "" else String.◌∷◌ c rest

unfoldable pub pulls_path : {R : Type 0} → Transport R → String → String → String → String → String
pulls_path t api owner branch base_branch = str_append api (
    str_append "/pulls?state=open&head=" (
      str_append (t.quote_all (str_append owner (str_append ":" branch)))
        (str_append "&base=" (str_append (t.quote_all base_branch) "&per_page=100"))))

-- a list of at most one value
unfoldable pub at_most_one : Json → Option (Option Json)
at_most_one (arr nil) = some none
at_most_one (arr (cons x nil)) = some (some x)
at_most_one _ = none

unfoldable pub check_found_request :
    {R : Type 0}
    → Option Json
    → String
    → String
    → PublicationIntent
    → PreparedHead
    → Exec R (Option Json)
check_found_request none branch base_branch i p = pure none
check_found_request (some x) branch base_branch i p = do
  lift (validate_pull_request x branch base_branch i p)
  pure (some x)

unfoldable pub new_request : String → String → PublicationIntent → PreparedHead → Json
new_request branch base_branch i p = obj (
    field "title" (str (str_append "Meta Loop publication " i.publication_id)) (
      field "head" (str branch) (
        field "base" (str base_branch) (
          field "body"
            (str (
              str_append "Publication: "
                (str_append i.publication_id (str_append "\nHead: " (str_append p.head_sha "\n")))))
            end))))

abbrev pub pull_request_for : PublicationIntent → PreparedHead → ℤ → PullRequestReceipt
pull_request_for i p number = record {
  publication_id = i.publication_id;
  pull_request_number = number;
  base_sha = i.base_sha;
  tree_sha = p.tree_sha;
  head_sha = p.head_sha;
  schema_version = pos 1;
}

abbrev pub reconciled_receipt :
    PublicationIntent → PreparedHead → PublicationEffectIntent → ℤ → PublicationReceipt
reconciled_receipt i p e number = record {
  publication_id = i.publication_id;
  effect_id = e.effect_id;
  state = reconciled;
  pull_request = some (pull_request_for i p number);
  schema_version = pos 1;
}

-- the two constructors with their checks
unfoldable pub receipt_for :
    PublicationIntent → PreparedHead → PublicationEffectIntent → ℤ → Result PublicationReceipt
receipt_for i p e number = elim (check_pull_request (pull_request_for i p number)) [
  | err x ↦ err x
  | ok _ ↦ check_receipt (reconciled_receipt i p e number)
]

module _ {R : Type 0} (t : Transport R) where
  -- `_validate_remote_commit`; an answer that is no `dict` has no `get`
  unfoldable pub validate_remote_commit : String → PreparedHead → Exec R (Unit {0})
  validate_remote_commit api p = do
    commit ← t.get_json (str_append api (str_append "/git/commits/" p.head_sha))
    raise_if (not (is_object commit)) other_error
    raise_if
        (not (
          text_at "sha" (some commit) == some p.head_sha
          && text_at "sha" (value_at "tree" commit) == some p.tree_sha))
        validation

  -- the blob of a changed path, and its entry in the tree
  unfoldable pub post_change : String → Change → Exec R Json
  post_change api unsupported = raise validation
  post_change api (deleted path mode) = do m ← lift mode; pure (entry path m null)
  post_change api (written path found) = do
    x ← lift found
    blob ←
        t.post_json (str_append api "/git/blobs")
          (obj (field "content" (str x.2) (field "encoding" (str "base64") end)))
    raise_if (not (text_at "sha" (some blob) == some x.1)) validation
    pure (entry path x.0 (str x.1))

  unfoldable pub post_changes : String → List Change → Exec R Items
  post_changes api [] = pure nil
  post_changes api (c ∷ cs) = do x ← post_change api c; xs ← post_changes api cs; pure (cons x xs)

  -- `_create_exact_objects`
  unfoldable pub create_exact_objects : String → LocalGit → PreparedHead → Exec R (Unit {0})
  create_exact_objects api git p = do
    base_tree ← lift git.base_tree
    changes ← lift git.changes
    entries ← post_changes api changes
    tree ←
        t.post_json (str_append api "/git/trees")
          (obj (field "base_tree" (str base_tree) (field "tree" (arr entries) end)))
    raise_if (not (text_at "sha" (some tree) == some p.tree_sha)) validation
    metadata ← lift git.metadata
    commit ← t.post_json (str_append api "/git/commits") metadata
    raise_if (not (text_at "sha" (some commit) == some p.head_sha)) validation
    validate_remote_commit api p

  abbrev pub branch_path : String → String → String
  branch_path api branch = str_append api (str_append "/git/ref/heads/" (t.quote_path branch))

  -- the publication's ref: found and checked, or created
  unfoldable pub ensure_ref :
      String → String → LocalGit → PreparedHead → Option Json → Exec R (Unit {0})
  ensure_ref api branch git p (some existing) = do
    raise_if (not (is_ref existing p.deterministic_ref p.head_sha)) validation
    validate_remote_commit api p
  ensure_ref api branch git p none = do
    create_exact_objects api git p
    created ←
        t.post_json (str_append api "/git/refs")
          (obj (field "ref" (str p.deterministic_ref) (field "sha" (str p.head_sha) end)))
    raise_if (not (is_ref created p.deterministic_ref p.head_sha)) validation

  -- `_find_open_pull_request`
  unfoldable pub find_open_pull_request :
      String → String → String → PublicationIntent → PreparedHead → Exec R (Option Json)
  find_open_pull_request api branch base_branch i p = do
    values ← t.get_json (pulls_path t api (owner_of i.repository_name) branch base_branch)
    found ← or_raise (at_most_one values) validation
    check_found_request found branch base_branch i p

  -- the pull request that is there, or a new one
  unfoldable pub ensure_pull_request :
      String → String → String → PublicationIntent → PreparedHead → Option Json → Exec R Json
  ensure_pull_request api branch base_branch i p (some found) = pure found
  ensure_pull_request api branch base_branch i p none =
      t.post_json (str_append api "/pulls") (new_request branch base_branch i p)

  -- what follows the ref: the pull request and the receipt
  unfoldable pub request_receipt :
      String
      → String
      → String
      → PublicationIntent
      → PreparedHead
      → PublicationEffectIntent
      → Exec R PublicationReceipt
  request_receipt api branch base_branch i p e = do
    found ← find_open_pull_request api branch base_branch i p
    request ← ensure_pull_request api branch base_branch i p found
    number ← lift (validate_pull_request request branch base_branch i p)
    lift (receipt_for i p e number)

  -- what follows the local tests: the refs, the pull request and the receipt
  unfoldable pub reconcile_branch :
      LocalGit
      → String
      → PublicationIntent
      → PreparedHead
      → PublicationEffectIntent
      → Exec R PublicationReceipt
  reconcile_branch git base_branch i p e = do
    let api = str_append "/repos/" i.repository_name
    let branch = str_append "meta-loop/" i.publication_id
    base ← t.get_json (branch_path api base_branch)
    raise_if (not (is_ref base (str_append "refs/heads/" base_branch) i.base_sha)) validation
    existing ← t.get_optional_json (branch_path api branch)
    ensure_ref api branch git p existing
    request_receipt api branch base_branch i p e

  -- `reconcile`
  unfoldable pub reconcile_remote :
      Settings
      → PublicationIntent
      → PreparedHead
      → PublicationEffectIntent
      → Exec R PublicationReceipt
  reconcile_remote settings i p e = do
    raise_if (not settings.enabled) validation
    bound ← lift (
        validate_binding (settings.local_git i.repository_name)
          (settings.base_branch i.repository_name) i p e)
    lift (validate_local bound.0 i p)
    reconcile_branch bound.0 bound.1 i p e
