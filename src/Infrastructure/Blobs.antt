-- ===== src/Infrastructure/Blobs.antt =====
-- infrastructure/cas.py: `FilesystemArtifactStore`, with the files below `sha256` as a dictionary from
-- their names to their contents. A file's path is a function of its name; there are no links.
pub mod Sound
use meta_loop.Domain.Artifacts.{new_digest}
use meta_loop.Base.{◌>>=◌, ◌>>◌}
use meta_loop.Base.{
  String, List, ℕ, Bool, Option, Result, Exec, Dict, [], ◌∷◌, ◌++◌, some, none, ok, err, get, put,
  keys, elem, not, ◌==◌, ◌!=◌, ◌&&◌, ◌||◌, if◌then◌else◌, validation, lift, gets, raise_if,
  or_raise, pure, length, keep, str_lt, string_eq, modify, false, true,
}

abbrev pub Files : Type 0
Files = Dict String (List ℕ)

-- the bytes of all chunks
abbrev pub joined : List (List ℕ) → List ℕ
joined [] = []
joined (c ∷ cs) = c ++ joined cs

unfoldable pub is_unexpected : Option String → String → Bool
is_unexpected none digest = false
is_unexpected (some expected) digest = digest != expected

-- the replacement of the target, which a file that is there survives
unfoldable pub place : String → List ℕ → Files → Files
place digest value s = elim (get digest s) [ some _ ↦ s | none ↦ put digest value s ]

module _ (sha256 : List ℕ → String) where
  -- `put`; `_path` raises for a text that is no digest
  unfoldable pub put_blob : List (List ℕ) → Option String → Exec Files (String × ℕ)
  put_blob chunks expected = do
    let value = joined chunks
    raise_if (is_unexpected expected (sha256 value)) validation
    lift (new_digest (sha256 value))
    modify (place (sha256 value) value)
    pure (sha256 value, length value)

  -- `read`
  unfoldable pub read_blob : String → Bool → Exec Files (List ℕ)
  read_blob digest verify = do
    lift (new_digest digest)
    found ← gets (λ s. get digest s)
    value ← or_raise found validation
    raise_if (verify && sha256 value != digest) validation
    pure value

insert_name : String → List String → List String
insert_name n [] = n ∷ []
insert_name n (m ∷ ms) = let rest = insert_name n ms in if str_lt m n then m ∷ rest else n ∷ m ∷ ms

sorted_names : List String → List String
unfolding insert_name
sorted_names [] = []
sorted_names (n ∷ ns) = insert_name n (sorted_names ns)

-- `scan_orphans`
unfoldable pub scan_orphans : List String → Exec Files (List String)
unfolding sorted_names
scan_orphans catalog s = (ok (sorted_names (keep (λ n. not (elem n catalog)) (keys s))), s)
