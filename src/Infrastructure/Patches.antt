-- ===== src/Infrastructure/Patches.antt =====
-- infrastructure/publication.py: the tests of `LocalGitCandidatePreparer` on patches and paths.
pub mod Inside
use meta_loop.Models.Publication.{split_slash}
use meta_loop.Base.{
  String, List, ℕ, Bool, Option, Result, [], ◌∷◌, some, none, ok, err, guard, if◌then◌else◌, ◌==◌,
  ◌||◌, ◌&&◌, not, all, any, leb, validation, codes, length, nat_eq, list_eq, true, false,
  drop_prefix, starts_with, contains, is_space, lower, map, elem, ◌and_then◌, ◌++◌,
}

-- what `shlex.split` gives, or nothing where it raises
abbrev pub Shlex : Type 0
Shlex = List ℕ → Option (List (List ℕ))

-- what `bytes.decode` gives, or nothing where it raises
abbrev pub Decode : Type 0
Decode = List ℕ → Option (List ℕ)

-- a path without the `a/` or `b/` of a diff
unfoldable pub bare_path : List ℕ → List ℕ
bare_path value = elim (drop_prefix (codes "a/") value) [
  | some r ↦ r
  | none ↦ elim (drop_prefix (codes "b/") value) [ some r ↦ r | none ↦ value ]
]

-- a component that stands for itself and is not Git's own directory; folding the case of other
-- letters than ASCII never gives `.git`
unfoldable pub is_plain : List ℕ → Bool
is_plain part =
    not (part == [] || part == codes "." || part == codes ".." || map lower part == codes ".git")

-- `len(parts[0]) >= 2 and parts[0][1] == ":"`
unfoldable pub has_drive : List (List ℕ) → Bool
has_drive ((_ ∷ c ∷ _) ∷ _) = c == b':'
has_drive _ = false

unfoldable pub is_safe_path : List ℕ → Bool
is_safe_path path =
    not (
      path == []
      || starts_with (codes "/") path
      || starts_with (codes "\\") path
      || elem b'\\' path
      || elem 0 path)
    && all is_plain (split_slash path)
    && not (has_drive (split_slash path))

-- `_validate_path`
unfoldable pub validate_path : List ℕ → Bool → Result (Unit {0})
validate_path value allow_dev_null =
    if allow_dev_null && value == codes "/dev/null"
    then ok tt
    else guard (not (is_safe_path (bare_path value))) validation (ok tt)

-- the line ends of `splitlines`
unfoldable pub is_break : ℕ → Bool
is_break c = (leb 10 c && leb c 13) || (leb 28 c && leb c 30) || c == 133 || c == 8232 || c == 8233

unfoldable pub onto_first : ℕ → List (List ℕ) → List (List ℕ)
onto_first c [] = (c ∷ []) ∷ []
onto_first c (l ∷ ls) = (c ∷ l) ∷ ls

-- `text.splitlines()`
unfoldable pub split_lines : List ℕ → List (List ℕ)
split_lines [] = []
split_lines (c ∷ s) =
    let rest = split_lines s in
    if c == 13 && starts_with (10 ∷ []) s
    then rest
    else if is_break c
    then [] ∷ rest
    else onto_first c rest

-- what follows the last space: `line.rsplit(" ", 1)[-1]`
unfoldable pub last_word : List ℕ → List ℕ
last_word [] = []
last_word (c ∷ s) =
    let rest = last_word s in if elem b' ' s then rest else if c == b' ' then s else c ∷ s

-- `line.split()`, beside the word that is being read
unfoldable pub words_from : List ℕ → List (List ℕ)
words_from [] = [] ∷ []
words_from (c ∷ s) = let rest = words_from s in if is_space c then [] ∷ rest else onto_first c rest

unfoldable pub non_empty : List (List ℕ) → List (List ℕ)
non_empty [] = []
non_empty (w ∷ ws) = let rest = non_empty ws in if w == [] then rest else w ∷ rest

unfoldable pub last_of : List (List ℕ) → List ℕ
last_of [] = []
last_of (w ∷ []) = w
last_of (w ∷ v ∷ ws) = last_of (v ∷ ws)

-- symbolic links and submodules
abbrev pub link_modes : List (List ℕ)
link_modes = codes "120000" ∷ codes "160000" ∷ []

abbrev pub unsafe_prefixes : List (List ℕ)
unsafe_prefixes =
    codes "rename from "
    ∷ codes "rename to "
    ∷ codes "copy from "
    ∷ codes "copy to "
    ∷ codes "old mode "
    ∷ codes "new mode "
    ∷ codes "similarity index "
    ∷ codes "dissimilarity index "
    ∷ []

-- a line that no patch may have
unfoldable pub is_refused : List ℕ → Bool
is_refused line =
    let fields = non_empty (words_from line) in
    line == codes "GIT binary patch"
    || starts_with (codes "Binary files ") line
    || any (λ p. starts_with p line) unsafe_prefixes
    || ((starts_with (codes "new file mode ") line || starts_with (codes "deleted file mode ") line)
        && elem (last_word line) link_modes)
    || (starts_with (codes "index ") line
        && leb 3 (length fields)
        && elem (last_of fields) link_modes)

-- the last place of a text in another: `s.rsplit(p, 1)`
unfoldable pub split_last : List ℕ → List ℕ → Option (List ℕ × List ℕ)
split_last p [] = none
split_last p (c ∷ s) =
    let rest = split_last p s in
    elim rest [
      | some (b, r) ↦ some (c ∷ b, r)
      | none ↦ elim (drop_prefix p (c ∷ s)) [ some r ↦ some ([], r) | none ↦ none ]
    ]

unfoldable pub quoted_paths : Option (List (List ℕ)) → Option (List ℕ × List ℕ)
quoted_paths (some (d ∷ g ∷ left ∷ right ∷ [])) =
    if d == codes "diff" && g == codes "--git" then some (left, right) else none
quoted_paths _ = none

-- the second form of a header, without quotes
unfoldable pub plain_paths : List ℕ → Option (List ℕ × List ℕ)
plain_paths payload =
    if not (starts_with (codes "a/") payload)
    then none
    else elim (split_last (codes " b/") payload) [
      | none ↦ none
      | some (left, right) ↦ some (left, codes "b/" ++ right)
    ]

-- `_diff_paths` for a line that begins with `diff --git `; nothing where it raises
unfoldable pub diff_paths : Shlex → List ℕ → List ℕ → Option (List ℕ × List ℕ)
diff_paths shlex line payload = elim (shlex line) [
  | none ↦ none
  | some fields ↦ elim (quoted_paths (some fields)) [ some p ↦ some p | none ↦ plain_paths payload ]
]

-- `payload.split("\t", 1)[0]`
unfoldable pub before_tab : List ℕ → List ℕ
before_tab [] = []
before_tab (c ∷ s) = let rest = before_tab s in if c == 9 then [] else c ∷ rest

unfoldable pub one_field : Option (List (List ℕ)) → Option (List ℕ)
one_field (some (f ∷ [])) = some f
one_field _ = none

-- `_header_path`
unfoldable pub header_path : Shlex → List ℕ → Option (List ℕ)
header_path shlex payload =
    let raw = before_tab payload in
    if starts_with (b'"' ∷ []) raw then one_field (shlex raw) else some raw

unfoldable pub check_header : Shlex → List ℕ → Result (Unit {0})
check_header shlex payload = elim (header_path shlex payload) [
  | none ↦ err validation
  | some path ↦ validate_path path true
]

-- the tests on the paths of a line
unfoldable pub check_paths : Shlex → List ℕ → Result (Unit {0})
check_paths shlex line = elim (drop_prefix (codes "diff --git ") line) [
  | some payload ↦ elim (diff_paths shlex line payload) [
    | none ↦ err validation
    | some (left, right) ↦ validate_path left false and_then validate_path right false
  ]
  | none ↦ elim (drop_prefix (codes "--- ") line) [
    | some payload ↦ check_header shlex payload
    | none ↦ elim (drop_prefix (codes "+++ ") line) [
      | some payload ↦ check_header shlex payload
      | none ↦ ok tt
    ]
  ]
]

unfoldable pub check_lines : Shlex → List (List ℕ) → Result (Unit {0})
check_lines shlex [] = ok tt
check_lines shlex (l ∷ ls) =
    guard (is_refused l) validation (check_paths shlex l and_then check_lines shlex ls)

-- `_validate_patch`
unfoldable pub validate_patch : Decode → Shlex → List ℕ → Result (Unit {0})
validate_patch decode shlex patch = elim (decode patch) [
  | none ↦ err validation
  | some text ↦ guard (elem 0 text) validation (
      check_lines shlex (split_lines text)
      and_then guard (not (any (starts_with (codes "diff --git ")) (split_lines text))) validation
          (ok tt))
]
