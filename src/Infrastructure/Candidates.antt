-- ===== src/Infrastructure/Candidates.antt =====
-- infrastructure/publication.py: `LocalGitCandidatePreparer.prepare` and `DockerCandidateVerifier`,
-- over what Git, the worktree manager and Docker answer.
pub mod Exact
use meta_loop.Models.Publication.{passed}
use meta_loop.Base.Int.{pos, ℤ, int_eq}
use meta_loop.Models.Publication.{
  PublicationIntent, PreparedHead, VerificationResultCode, check_prepared, timeout,
  VerificationResult, check_verification, default, VerificationStatus, result_code_eq,
}
use meta_loop.Infrastructure.Patches.{onto_first, Decode, validate_path, Shlex, validate_patch}
use meta_loop.Base.{
  String, List, ℕ, Bool, Option, Result, [], ◌∷◌, some, none, ok, err, guard, if◌then◌else◌, ◌==◌,
  ◌!=◌, ◌||◌, ◌&&◌, not, all, any, validation, codes, nat_eq, list_eq, true, false, elem,
  ◌and_then◌, str_append, string_eq,
}

-- what the calls on a checked-out worktree give or raise, in the order in which they are made
pub record Worktree : Type 0 where
  pub checkout : Result (Unit {0})
  pub apply_patch : Result (Unit {0})
  pub ls_files : Result (List ℕ)
  pub write_tree : Result String
  pub commit_tree : String → Result String
  pub release : Result (Unit {0})

-- `bytes.split(sep)`
unfoldable pub split_on : ℕ → List ℕ → List (List ℕ)
split_on sep [] = [] ∷ []
split_on sep (c ∷ s) =
    let rest = split_on sep s in if c == sep then [] ∷ rest else onto_first c rest

-- `bytes.split(sep, 1)`, if the separator is there
unfoldable pub split_once : ℕ → List ℕ → Option (List ℕ × List ℕ)
split_once sep [] = none
split_once sep (c ∷ s) =
    let rest = split_once sep s in
    if c == sep then some ([], s) else elim rest [ none ↦ none | some (b, r) ↦ some (c ∷ b, r) ]

-- `metadata.split(b" ", 1)[0]`
unfoldable pub mode_of : List ℕ → List ℕ
mode_of metadata = elim (split_once b' ' metadata) [ none ↦ metadata | some (mode, _) ↦ mode ]

-- the modes of plain and executable files
abbrev pub file_modes : List (List ℕ)
file_modes = codes "100644" ∷ codes "100755" ∷ []

-- a mode that is not ASCII is none of the two
unfoldable pub check_entry : Decode → List ℕ → Result (Unit {0})
check_entry decode entry = elim (split_once 9 entry) [
  | none ↦ err validation
  | some (metadata, encoded) ↦ elim (decode encoded) [
    | none ↦ err validation
    | some path ↦
        guard (not (elem (mode_of metadata) file_modes)) validation (validate_path path false)
  ]
]

unfoldable pub check_entries : Decode → List (List ℕ) → Result (Unit {0})
check_entries decode [] = ok tt
check_entries decode (e ∷ es) =
    (if e == [] then ok tt else check_entry decode e) and_then check_entries decode es

-- `_validate_index`
unfoldable pub validate_index : Decode → Result (List ℕ) → Result (Unit {0})
validate_index decode (err e) = err e
validate_index decode (ok listing) = check_entries decode (split_on 0 listing)

-- `try: ... finally: release`
unfoldable pub finally : {A : Type 0} → Result (Unit {0}) → Result A → Result A
finally (err e) r = err e
finally (ok _) r = r

abbrev pub head_of : PublicationIntent → String → String → PreparedHead
head_of i tree_sha head_sha = record {
  publication_id = i.publication_id;
  patch_digest = i.patch_digest;
  base_sha = i.base_sha;
  tree_sha = tree_sha;
  head_sha = head_sha;
  deterministic_ref = str_append "refs/heads/meta-loop/" i.publication_id;
  schema_version = pos 1;
}

-- the tree, the commit and the prepared head
unfoldable pub commit_candidate : Worktree → PublicationIntent → Result PreparedHead
commit_candidate git i = elim git.write_tree [
  | err e ↦ err e
  | ok tree_sha ↦ elim (git.commit_tree tree_sha) [
    | err e ↦ err e
    | ok head_sha ↦ check_prepared (head_of i tree_sha head_sha)
  ]
]

-- `prepare`
unfoldable pub prepare_candidate :
    (List ℕ → String) → Decode → Shlex → Worktree → PublicationIntent → List ℕ → Result PreparedHead
prepare_candidate sha256 decode shlex git i patch =
    guard (sha256 patch != i.patch_digest) validation (
      validate_patch decode shlex patch
      and_then git.checkout
      and_then finally git.release (
          git.apply_patch
          and_then validate_index decode git.ls_files
          and_then commit_candidate git i))

-- `_validate_binding`
unfoldable pub validate_candidate : PublicationIntent → PreparedHead → Result (Unit {0})
validate_candidate i p =
    guard
      (p.publication_id != i.publication_id
        || p.patch_digest != i.patch_digest
        || p.base_sha != i.base_sha
        || p.deterministic_ref != str_append "refs/heads/meta-loop/" i.publication_id)
      validation (ok tt)

-- how the container has ended
pub data Completed : Type 0 where
  returned : ℤ → Completed
  timed_out os_error : Completed

-- what the calls of the verifier give or raise, in the order in which they are made
pub record Sandbox : Type 0 where
  pub checkout : Result (Unit {0})
  pub head : Result String
  pub tree : Result String
  pub parent : Result String
  pub completed : Completed
  pub release : Result (Unit {0})

-- `_validate_checkout`
unfoldable pub validate_checkout : Sandbox → PreparedHead → Result (Unit {0})
validate_checkout b p = elim b.head [
  | err e ↦ err e
  | ok head ↦ elim b.tree [
    | err e ↦ err e
    | ok tree ↦ elim b.parent [
      | err e ↦ err e
      | ok parent ↦
          guard (head != p.head_sha || tree != p.tree_sha || parent != p.base_sha) validation
            (ok tt)
    ]
  ]
]

unfoldable pub code_of : Completed → VerificationResultCode
code_of Completed.timed_out = timeout
code_of Completed.os_error = VerificationResultCode.blocked
code_of (Completed.returned n) = if n == pos 0 then passed else VerificationResultCode.failed

abbrev pub verification_of : String → PreparedHead → VerificationResultCode → VerificationResult
verification_of image_digest p code = record {
  publication_id = p.publication_id;
  head_sha = p.head_sha;
  verifier_image_digest = image_digest;
  verifier_profile = default;
  status = if code == passed then VerificationStatus.succeeded else VerificationStatus.failed;
  result_code = code;
  schema_version = pos 1;
}

-- `_result`
unfoldable pub result_of :
    String → PreparedHead → VerificationResultCode → Result VerificationResult
result_of image_digest p code = check_verification (verification_of image_digest p code)

-- `verify`
unfoldable pub verify :
    Sandbox → String → PublicationIntent → PreparedHead → Result VerificationResult
verify b image_digest i p =
    validate_candidate i p
    and_then finally b.release (
        b.checkout
        and_then validate_checkout b p
        and_then result_of image_digest p (code_of b.completed))
