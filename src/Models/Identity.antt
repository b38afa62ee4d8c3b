-- ===== src/Models/Identity.antt =====
-- application/models.py: the identifiers, SHA values and refs of publications, and the canonical text.
use meta_loop.Base.{
  List, ℕ, String, Bool, str_append, is_alnum, false, not, len, ◌==◌, ◌||◌, ◌∷◌, is_empty, ◌&&◌,
  nat_eq, string_eq, leb, all, codes, is_hex, [],
}
use meta_loop.Base.Json.{Json, dumps}

-- `_phase8_canonical`
unfoldable pub phase8_canonical : Json → List ℕ
unfolding dumps
phase8_canonical value = dumps value

-- `abcdefghijklmnopqrstuvwxyzABCDEFGHIJKLMNOPQRSTUVWXYZ0123456789._:-`
abbrev pub is_id_char : ℕ → Bool
is_id_char c = is_alnum c || c == b'.' || c == b'_' || c == b':' || c == b'-'

abbrev pub starts_alnum : List ℕ → Bool
starts_alnum [] = false
starts_alnum (c ∷ s) = is_alnum c

-- `_phase8_identifier` does not raise. With the second test on every character, `isalnum` of the
-- first one means an ASCII letter or digit.
unfoldable pub is_phase8_identifier : String → Bool
is_phase8_identifier value =
    not (is_empty value)
    && leb (len value) 128
    && starts_alnum (codes value)
    && all is_id_char (codes value)

-- `_phase8_sha` does not raise
unfoldable pub is_phase8_sha : String → ℕ → Bool
is_phase8_sha value length = len value == length && all is_hex (codes value)

unfoldable pub phase8_publication_ref : String → String
phase8_publication_ref publication_id = str_append "refs/heads/meta-loop/" publication_id

unfoldable pub phase8_ref_is_known : String → String → Bool
phase8_ref_is_known publication_id value =
    value == phase8_publication_ref publication_id
    || value == str_append "refs/meta-loop/" publication_id
