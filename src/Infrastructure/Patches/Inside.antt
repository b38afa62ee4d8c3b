-- ===== src/Infrastructure/Patches/Inside.antt =====
-- infrastructure/publication.py: a path that is accepted stays inside.
use meta_loop.Models.Publication.{split_slash}
use meta_loop.Infrastructure.Patches.{is_plain, is_safe_path, validate_path, bare_path}
use meta_loop.Base.{
  List, ℕ, ◌≡◌, ◌≢◌, [], ◌∷◌, some, none, ok, true, Option, All, all, arith, codes, lower, map,
  ◌==◌, list_eq, nat_eq, if◌then◌else◌, refl, ◌||◌, Bool, ◌⊎◌, Bool-cases, ◌&&◌, inl, inr,
}

-- a file system's walk along the components of a path, from the directories above, the nearest one
-- first; it has no result where it leaves the first one
unfoldable pub walk : List (List ℕ) → List (List ℕ) → Option (List (List ℕ))
walk above [] = some above
walk above (p ∷ ps) =
    if p == [] || p == codes "."
    then walk above ps
    else if p == codes ".."
    then elim above [ [] ↦ none | d ∷ ds ↦ walk ds ps ]
    else walk (p ∷ above) ps

-- the components on top of the directories
abbrev pub rev_onto : List (List ℕ) → List (List ℕ) → List (List ℕ)
rev_onto [] above = above
rev_onto (p ∷ ps) above = rev_onto ps (p ∷ above)

walk_plain :
    (ps above : List (List ℕ)) → all is_plain ps ≡ true → walk above ps ≡ some (rev_onto ps above)
unfolding walk is_plain
walk_plain [] above h = refl
walk_plain (p ∷ ps) above h = ground (arith, h, walk_plain ps (p ∷ above))

plain-NotGit :
    (ps : List (List ℕ)) → all is_plain ps ≡ true → All (λ p. map lower p ≢ codes ".git") ps
unfolding is_plain
plain-NotGit [] h = tt
plain-NotGit (p ∷ ps) h = ((λ e. ground (arith, h, e)), plain-NotGit ps (ground (arith, h)))

-- a walk along a safe path goes down one directory for each component, none of them Git's own
pub record IsInside (path : List ℕ) : Type 0 where
  pub down :
      (above : List (List ℕ))
      → walk above (split_slash path) ≡ some (rev_onto (split_slash path) above)
  pub clean : All (λ p. map lower p ≢ codes ".git") (split_slash path)

safe-IsInside : (path : List ℕ) → is_safe_path path ≡ true → IsInside path
unfolding is_safe_path
safe-IsInside path h =
    let k : all is_plain (split_slash path) ≡ true = ground (arith, h) in
    record {
      down = λ above. walk_plain (split_slash path) above k;
      clean = plain-NotGit (split_slash path) k;
    }

-- A path that is accepted stays inside the directory that it is taken in: a file system's walk along
-- its components from any directory goes down at each of them, and none of them is `.git` in any
-- case. The one exception is `/dev/null`, and only where it is allowed.
pub validate_path-IsInside :
    (value : List ℕ) (allow : Bool)
    → validate_path value allow ≡ ok tt
    → IsInside (bare_path value) ⊎ ((allow ≡ true) × (value ≡ codes "/dev/null"))
unfolding validate_path
validate_path-IsInside value allow h = elim (Bool-cases (allow && value == codes "/dev/null")) [
  | inl a ↦ inr (ground (arith, a))
  | inr a ↦ inl (safe-IsInside (bare_path value) (ground (arith, a, h)))
]
