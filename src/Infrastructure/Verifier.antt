-- ===== src/Infrastructure/Verifier.antt =====
-- infrastructure/publication.py: the configuration of `DockerCandidateVerifier` and the call that it
-- makes.
use meta_loop.Infrastructure.Candidates.{result_of, verification_of}
use meta_loop.Models.Publication.{
  is_image_digest, check_verification, check_prepared, PreparedHead, VerificationResultCode,
}
use meta_loop.Base.Int.{ℤ, leb_ℤ, pos}
use meta_loop.Base.{
  String, List, ℕ, Bool, Option, Result, [], ◌∷◌, some, none, ok, guard, if◌then◌else◌, ◌==◌, ◌||◌,
  ◌&&◌, not, all, any, validation, codes, elem, nat_eq, string_eq, is_alnum, drop_prefix,
  str_append, false, true, is_empty, ◌≡◌, list_eq, arith,
}

pub record VerifierConfig : Type 0 where
  pub image : String
  pub argv : List String
  pub timeout_seconds : ℤ
  pub user : String
  pub memory : String
  pub cpus : String
  pub pids_limit : ℤ

-- `[A-Za-z0-9._/:+-]`
unfoldable pub is_image_char : ℕ → Bool
is_image_char c =
    is_alnum c || c == b'.' || c == b'_' || c == b'/' || c == b':' || c == b'+' || c == b'-'

-- what stands before the first `@`, and what follows it
unfoldable pub at_sign : List ℕ → Option (List ℕ × List ℕ)
at_sign [] = none
at_sign (c ∷ s) =
    let rest = at_sign s in
    if c == b'@' then some ([], s) else elim rest [ none ↦ none | some (b, r) ↦ some (c ∷ b, r) ]

unfoldable pub is_image_name : List ℕ → Bool
is_image_name [] = false
is_image_name (c ∷ s) = is_alnum c && all is_image_char s

-- `_PINNED_IMAGE.fullmatch`; `@` is no character of the name
unfoldable pub is_pinned : String → Bool
is_pinned image = elim (at_sign (codes image)) [
  | none ↦ false
  | some (name, digest) ↦
      is_image_name name && is_image_digest (drop_prefix (codes "sha256:") digest)
]

abbrev pub root_users : List String
root_users = "0" ∷ "0:0" ∷ "root" ∷ "root:root" ∷ []

-- `__init__`
unfoldable pub check_config : VerifierConfig → Result VerifierConfig
check_config c = guard (not (is_pinned c.image)) validation (
    guard (c.argv == [] || any (λ v. is_empty v || elem 0 (codes v)) c.argv) validation (
      guard (not (leb_ℤ (pos 1) c.timeout_seconds && leb_ℤ c.timeout_seconds (pos 3600))) validation
        (guard (elem c.user root_users) validation (
          guard (not (leb_ℤ (pos 1) c.pids_limit && leb_ℤ c.pids_limit (pos 4096))) validation
            (ok c)))))

-- `_docker_arguments`, with `str` as an argument
unfoldable pub docker_arguments : (ℤ → String) → VerifierConfig → String → List String
docker_arguments str c destination =
    "docker"
    ∷ "run"
    ∷ "--rm"
    ∷ "--network"
    ∷ "none"
    ∷ "--read-only"
    ∷ "--cap-drop"
    ∷ "ALL"
    ∷ "--security-opt"
    ∷ "no-new-privileges"
    ∷ "--user"
    ∷ c.user
    ∷ "--pids-limit"
    ∷ str c.pids_limit
    ∷ "--memory"
    ∷ c.memory
    ∷ "--cpus"
    ∷ c.cpus
    ∷ "--mount"
    ∷ str_append "type=bind,src=" (str_append destination ",dst=/workspace,readonly")
    ∷ "--workdir"
    ∷ "/workspace"
    ∷ c.image
    ∷ c.argv

is_pinned-digest :
    (image : String) (name digest : List ℕ)
    → is_pinned image ≡ true
    → at_sign (codes image) ≡ some (name, digest)
    → is_image_digest (drop_prefix (codes "sha256:") digest) ≡ true
unfolding is_pinned
is_pinned-digest image name digest h a = ground (arith, a, h)

-- A verifier that its constructor accepts never fails to report: for a prepared head that passed its
-- own constructor, and the digest that the image names, every outcome of the container is a
-- verification that passes its checks.
pub result_of_total :
    (c : VerifierConfig) (d : String) (name : List ℕ) (p : PreparedHead)
    (code : VerificationResultCode)
    → check_config c ≡ ok c
    → at_sign (codes c.image) ≡ some (name, codes d)
    → check_prepared p ≡ ok p
    → result_of d p code ≡ ok (verification_of d p code)
unfolding result_of check_verification check_prepared check_config
result_of_total c d name p code h a k =
    let pinned : is_pinned c.image ≡ true = ground (arith, h) in
    let e = is_pinned-digest c.image name (codes d) pinned a in ground (arith, e, k)
