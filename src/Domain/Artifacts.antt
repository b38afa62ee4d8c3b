-- ===== src/Domain/Artifacts.antt =====
-- domain/artifacts.py: content digests, and references to catalogued artifacts.
use meta_loop.Base.Int.{ℤ, pos, ℤ-discrete, int_eq}
use meta_loop.Base.Json.{Json, num, str, obj, field, end}
use meta_loop.Base.{
  ℕ, Bool, false, not, ◌&&◌, ◌||◌, List, [], ◌∷◌, String, Eq, ◌==◌, ◌!=◌, String-discrete,
  string_eq, nat_eq, codes, len, length, all, is_alnum, is_hex, is_empty, has_dots, leb, Result, ok,
  validation, guard, ◌and_then◌,
}

-- `[A-Za-z0-9._-]`
is_name_char : ℕ → Bool
is_name_char c = is_alnum c || c == b'.' || c == b'_' || c == b'-'

-- `_SAFE_LOGICAL_NAME.fullmatch`: one letter or digit, and at most 127 more characters
is_safe_name : List ℕ → Bool
unfolding is_name_char
is_safe_name [] = false
is_safe_name (c ∷ s) = is_alnum c && all is_name_char s && leb (length s) 127

unfoldable pub validate_logical_name : String → Result (Unit {0})
unfolding is_safe_name
validate_logical_name value =
    guard (not (is_safe_name (codes value)) || has_dots (codes value)) validation (ok tt)

pub record ArtifactDigest : Type 0 where
  pub value : String

-- `ArtifactDigest(value)`
unfoldable pub new_digest : String → Result ArtifactDigest
new_digest value =
    guard (len value != 64 || not (all is_hex (codes value))) validation
      (ok (record { value = value }))

pub record ArtifactRef : Type 0 where
  pub digest : ArtifactDigest
  pub logical_name : String
  pub media_type : String
  pub schema_version : ℤ

unfoldable pub ArtifactRef-discrete : Discrete ArtifactRef
unfolding String-discrete ℤ-discrete
ArtifactRef-discrete = hlevel (String-discrete, ℤ-discrete)

instance abbrev pub artifact_ref_eq : Eq ArtifactRef
artifact_ref_eq = record { dec = ArtifactRef-discrete }

-- `ArtifactRef(digest, logical_name, media_type)` and its `__post_init__`
unfoldable pub new_ref : ArtifactDigest → String → String → ℤ → Result ArtifactRef
unfolding validate_logical_name
new_ref digest logical_name media_type schema_version =
    validate_logical_name logical_name
    and_then guard (is_empty media_type || schema_version != pos 1) validation (
        ok (record {
          digest = digest;
          logical_name = logical_name;
          media_type = media_type;
          schema_version = schema_version;
        }))

-- `ArtifactRef.to_dict`
abbrev pub ref_to_dict : ArtifactRef → Json
ref_to_dict r = obj (
    field "digest" (str (Prim.Native.String.◌++◌ "sha256:" r.digest.value)) (
      field "logical_name" (str r.logical_name) (
        field "media_type" (str r.media_type) (field "schema_version" (num r.schema_version) end))))
