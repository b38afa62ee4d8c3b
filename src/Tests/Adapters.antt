-- ===== src/Tests/Adapters.antt =====
-- Tests of the adapters.
use meta_loop.Infrastructure.Publisher.Requests.{IsGiven, IsOpenRequest}
use meta_loop.Infrastructure.CheckRuns.Observed.{ObservesAll}
use meta_loop.Infrastructure.Verifier.{
  VerifierConfig, check_config, at_sign, is_pinned, result_of_total, is_image_name, is_image_char,
}
use meta_loop.Infrastructure.Blobs.Sound.{IsSound, put_blob-read_blob}
use meta_loop.Domain.Artifacts.{new_digest}
use meta_loop.Infrastructure.Blobs.{Files, put_blob, is_unexpected, joined, read_blob}
use meta_loop.Models.Publication.{
  passed, check_verification, VerificationStatus-discrete, VerificationResultCode-discrete,
  VerificationResultCode, is_image_digest,
}
use meta_loop.Infrastructure.Publisher.Exact.{reconcile_remote-fits}
use meta_loop.Models.Identity.{
  phase8_publication_ref, phase8_ref_is_known, is_phase8_sha, is_phase8_identifier,
}
use meta_loop.Infrastructure.Candidates.Exact.{prepare_candidate_lem, verify_lem}
use meta_loop.Infrastructure.CheckRuns.Exact.{IsTaken, read_checks-IsTaken}
use meta_loop.Services.Publishing.Remote.{validate_receipt}
use meta_loop.Models.Effect.{
  PublicationEffectState-discrete, check_receipt, check_pull_request, PublicationReceipt,
}
use meta_loop.Infrastructure.Publisher.{
  owner_of, pulls_path, receipt_for, positive, ensure_pull_request, check_found_request,
  at_most_one, find_open_pull_request, request_receipt, is_object, validate_remote_commit,
  ensure_ref, value_at, text_at, is_ref, is_bad_char, ends_with, ends_in_space, is_stripped,
  safe_branch, validate_binding, reconcile_branch, Transport, LocalGit, Settings, reconcile_remote,
  reconciled_receipt, validate_local, validate_pull_request, pull_request_for,
}
use meta_loop.Base.Int.{pos, ℤ, ℤ-discrete}
use meta_loop.Models.Publication.{
  check_prepared, VerificationResult, VerificationStatus, split_slash,
}
use meta_loop.Services.Publishing.Preparation.{is_candidate_of}
use meta_loop.Infrastructure.Candidates.{
  commit_candidate, mode_of, split_once, split_on, check_entry, check_entries, Worktree,
  prepare_candidate, Sandbox, verify, returned, verification_of, finally, validate_index,
  validate_candidate, validate_checkout, code_of, result_of,
}
use meta_loop.Infrastructure.Patches.Inside.{IsInside, validate_path-IsInside}
use meta_loop.Infrastructure.Patches.{
  check_lines, check_paths, check_header, one_field, header_path, before_tab, split_last,
  plain_paths, quoted_paths, diff_paths, is_refused, last_of, non_empty, words_from, last_word,
  onto_first, is_break, split_lines, validate_path, Shlex, is_safe_path, bare_path, validate_patch,
  is_plain, has_drive,
}
use meta_loop.Models.Checks.{CheckRunObservation, CheckRunStatus, success, check_observation}
use meta_loop.Infrastructure.CheckRuns.{
  FromIso, read_checks, observation_of, is_repository, is_repository_word, runs_of, complete_runs,
  normalize_all, normalize, status_of, ending, conclusion_of, timed, parse_time, replace_z,
  check_path,
}
use meta_loop.Tests.Gates.{ready_intent, ready_head, effect_intent, digest, ref}
use meta_loop.Tests.Publishing.{head, base}
use meta_loop.Base.Json.{Json, obj, field, end, str, num, arr, cons, nil}
use meta_loop.Base.{
  String, List, ℕ, ◌∷◌, [], ◌++◌, some, ok, refl, ◌≡◌, true, false, codes, zero, suc, Result, All,
  ◌≤◌, ◌⊎◌, ◌↔◌, ℕ_discrete, List-discrete, String-discrete, Option-discrete, Bool-discrete, none,
  length, get, string_eq,
}

abbrev run : Json
run = obj (
    field "head_sha" (str head) (
      field "name" (str "ci") (
        field "status" (str "completed") (
          field "conclusion" (str "success")
            (field "completed_at" (str "2026-01-01T00:00:00Z") end)))))

abbrev answer : String → Result Json
answer =
    λ _. ok (obj (field "total_count" (num (pos 1)) (field "check_runs" (arr (cons run nil)) end)))

abbrev iso : FromIso
iso = λ _. some (some 20)

abbrev seen : CheckRunObservation
seen = observation_of "P-1" head "ci" CheckRunStatus.completed (some success) 20

reads : read_checks answer iso "P-1" "owner/repo" head ≡ ok (seen ∷ [])
unfolding read_checks is_repository is_repository_word split_slash is_phase8_sha
    is_phase8_identifier runs_of complete_runs normalize_all normalize status_of ending
    conclusion_of timed parse_time replace_z check_observation String-discrete ℕ_discrete ℤ-discrete
    Option-discrete
reads = refl

read_checks-IsTaken_example :
    ((payload : Json) × (runs : List Json) × (answer (check_path "owner/repo" head) ≡ ok payload)
      × (runs_of payload ≡ some runs)
      × ObservesAll iso head runs (seen ∷ []))
    × All (IsTaken "P-1" head) (seen ∷ [])
    × (1 ≤ 100)
read_checks-IsTaken_example =
    read_checks-IsTaken answer iso "P-1" "owner/repo" head (seen ∷ []) reads

accepted_path : validate_path (codes "a/src/x.py") false ≡ ok tt
unfolding validate_path is_safe_path bare_path is_plain has_drive split_slash ℕ_discrete
    List-discrete
accepted_path = refl

validate_path-IsInside_example :
    IsInside (bare_path (codes "a/src/x.py"))
    ⊎ ((false ≡ true) × (codes "a/src/x.py" ≡ codes "/dev/null"))
validate_path-IsInside_example = validate_path-IsInside (codes "a/src/x.py") false accepted_path

abbrev patch : List ℕ
patch = codes "diff --git a/x b/x\n--- a/x\n+++ b/x\n"

abbrev worktree : Worktree
worktree = record {
  checkout = ok tt;
  apply_patch = ok tt;
  ls_files = ok (codes "100644 1 0\tx" ++ 0 ∷ []);
  write_tree = ok base;
  commit_tree = λ _. ok head;
  release = ok tt;
}

abbrev shlex : Shlex
shlex = λ _. some (codes "diff" ∷ codes "--git" ∷ codes "a/x" ∷ codes "b/x" ∷ [])

prepared :
    prepare_candidate (λ _. digest) (λ s. some s) shlex worktree ready_intent patch ≡ ok ready_head
unfolding prepare_candidate validate_patch finally validate_path is_safe_path bare_path is_plain
    has_drive split_slash split_lines is_break onto_first last_word words_from non_empty last_of
    is_refused diff_paths quoted_paths plain_paths split_last before_tab header_path one_field
    check_header check_paths check_lines validate_index check_entries check_entry split_on
    split_once mode_of commit_candidate check_prepared is_phase8_identifier is_phase8_sha
    phase8_ref_is_known phase8_publication_ref String-discrete ℕ_discrete ℤ-discrete List-discrete
prepared = refl

prepare_candidate_lem_example :
    (is_candidate_of ready_head ready_intent ≡ true)
    × (worktree.write_tree ≡ ok ready_head.tree_sha)
    × (worktree.commit_tree ready_head.tree_sha ≡ ok ready_head.head_sha)
    × (digest ≡ digest)
    × (validate_patch (λ s. some s) shlex patch ≡ ok tt)
    × (validate_index (λ s. some s) worktree.ls_files ≡ ok tt)
prepare_candidate_lem_example =
    prepare_candidate_lem (λ _. digest) (λ s. some s) shlex worktree ready_intent patch ready_head
      prepared

abbrev sandbox : Sandbox
sandbox = record {
  checkout = ok tt;
  head = ok head;
  tree = ok base;
  parent = ok base;
  completed = returned (pos 0);
  release = ok tt;
}

abbrev image : String
image = "sha256:3333333333333333333333333333333333333333333333333333333333333333"

abbrev verification : VerificationResult
verification = verification_of image ready_head passed

verifies : verify sandbox image ready_intent ready_head ≡ ok verification
unfolding verify finally validate_candidate String-discrete validate_checkout check_verification
    is_phase8_identifier ℕ_discrete is_phase8_sha Bool-discrete VerificationStatus-discrete
    VerificationResultCode-discrete code_of result_of ℤ-discrete
verifies = refl

verify_lem_example :
    (verification.publication_id ≡ "P-1")
    × (head ≡ head)
    × ((sandbox.head ≡ ok head) × (sandbox.tree ≡ ok base) × (sandbox.parent ≡ ok base))
    × (is_candidate_of ready_head ready_intent ≡ true)
    × ((verification.status ≡ VerificationStatus.succeeded)
        ↔ (sandbox.completed ≡ returned (pos 0)))
verify_lem_example = verify_lem sandbox image ready_intent ready_head verification verifies

abbrev ref_answer : String → String → Json
ref_answer name sha = obj (
    field "ref" (str name)
      (field "object" (obj (field "type" (str "commit") (field "sha" (str sha) end))) end))

abbrev commit_answer : Json
commit_answer = obj (field "sha" (str head) (field "tree" (obj (field "sha" (str base) end)) end))

abbrev request_answer : Json
request_answer = obj (
    field "state" (str "open") (
      field "number" (num (pos 7)) (
        field "base" (obj (field "sha" (str base) (field "ref" (str "main") end))) (
          field "head" (obj (field "sha" (str head) (field "ref" (str "meta-loop/P-1") end)))
            end))))

-- what the remote side answers to the first, the second and any later reading
abbrev reading : ℕ → Json
reading zero = ref_answer "refs/heads/main" base
reading (suc zero) = commit_answer
reading (suc (suc n)) = arr (cons request_answer nil)

abbrev remote : Transport ℕ
remote = record {
  get_json = λ _ n. (ok (reading n), suc n);
  get_optional_json = λ _ n. (ok (some (ref_answer ref head)), n);
  post_json = λ _ _ n. (ok request_answer, n);
  quote_path = λ s. s;
  quote_all = λ s. s;
}

abbrev local : LocalGit
local = record {
  is_dir = true;
  tree = ok base;
  parent = ok base;
  base_tree = ok base;
  changes = ok [];
  metadata = ok request_answer;
}

abbrev settings : Settings
settings = record { enabled = true; base_branch = λ _. some "main"; local_git = λ _. some local }

abbrev remote_receipt : PublicationReceipt
remote_receipt = reconciled_receipt ready_intent ready_head effect_intent (pos 7)

reconciles :
    (reconcile_remote remote settings ready_intent ready_head effect_intent 0).0 ≡ ok remote_receipt
unfolding reconcile_remote reconcile_branch validate_binding safe_branch is_stripped ends_in_space
    ends_with is_bad_char validate_local is_ref text_at value_at ensure_ref validate_remote_commit
    is_object request_receipt find_open_pull_request at_most_one check_found_request
    ensure_pull_request validate_pull_request positive receipt_for check_pull_request check_receipt
    is_phase8_identifier is_phase8_sha String-discrete Option-discrete ℕ_discrete ℤ-discrete
    List-discrete PublicationEffectState-discrete pulls_path owner_of
reconciles = refl

reconcile_remote-fits_example :
    (validate_receipt remote_receipt ready_head effect_intent ≡ ok tt)
    × (true ≡ true)
    × ((git : LocalGit) × (main : String) × (x : Json) × (n : ℤ) × (some local ≡ some git)
        × (some "main" ≡ some main)
        × (validate_local git ready_intent ready_head ≡ ok tt)
        × IsGiven remote git main ready_intent ready_head 0 x
        × IsOpenRequest x "meta-loop/P-1" main ready_intent ready_head n
        × (remote_receipt.pull_request ≡ some (pull_request_for ready_intent ready_head n)))
reconcile_remote-fits_example =
    reconcile_remote-fits remote settings ready_intent ready_head effect_intent 0 remote_receipt
      reconciles

abbrev chunks : List (List ℕ)
chunks = (1 ∷ []) ∷ (2 ∷ 3 ∷ []) ∷ []

abbrev no_files : Files
no_files = []

puts : (put_blob (λ _. digest) chunks none no_files).0 ≡ ok (digest, 3)
unfolding put_blob is_unexpected new_digest ℕ_discrete
puts = refl

put_blob-read_blob_example :
    let s' = (put_blob (λ _. digest) chunks none no_files).1 in
    IsSound (λ _. digest) s'
    × (digest ≡ digest)
    × (3 ≡ length (joined chunks))
    × ((value : List ℕ) × (read_blob (λ _. digest) digest true s' ≡ (ok value, s'))
        × (digest ≡ digest)
        × (get digest no_files ≡ none → value ≡ joined chunks))
put_blob-read_blob_example = put_blob-read_blob (λ _. digest) chunks none no_files digest 3 tt puts

abbrev config : VerifierConfig
config = record {
  image = "repo/tests@sha256:3333333333333333333333333333333333333333333333333333333333333333";
  argv = "pytest" ∷ [];
  timeout_seconds = pos 300;
  user = "65534:65534";
  memory = "256m";
  cpus = "1.0";
  pids_limit = pos 64;
}

configured : check_config config ≡ ok config
unfolding check_config is_pinned at_sign is_image_name is_image_char is_image_digest String-discrete
    ℕ_discrete List-discrete
configured = refl

image_parts : at_sign (codes config.image) ≡ some (codes "repo/tests", codes image)
unfolding at_sign ℕ_discrete
image_parts = refl

head_checked : check_prepared ready_head ≡ ok ready_head
unfolding check_prepared is_phase8_identifier is_phase8_sha phase8_ref_is_known
    phase8_publication_ref String-discrete ℕ_discrete ℤ-discrete
head_checked = refl

result_of_total_example :
    result_of image ready_head VerificationResultCode.timeout
    ≡ ok (verification_of image ready_head VerificationResultCode.timeout)
result_of_total_example =
    result_of_total config image (codes "repo/tests") ready_head VerificationResultCode.timeout
      configured image_parts head_checked
