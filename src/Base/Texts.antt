-- ===== src/Base/Texts.antt =====
-- Texts: Python's `str` as the native text, and its characters where the source walks them.
use Prim.Native.Nat.{ℕ, ◌+◌}
use Prim.Native.Char.{code}
use Prim.Native.String.{String, compare}
use mathlib.Core.Path.{◌≡◌, sym, ap, ◌∙◌}
use mathlib.Core.Logic.{inl, inr}
use native.Mathlib.Omega.{arith}
use mathlib.Core.Bool.{Bool, true, false, ◌&&◌, ◌||◌}
use mathlib.Core.Option.{Option, none, some}
use mathlib.Core.List.{List, [], ◌∷◌}
use text.Mathlib.Text.{is_lt}
use meta_loop.Base.Equality.{◌==◌, string_eq, nat_eq, list_eq}
use meta_loop.Base.Tests.{leb, if◌then◌else◌, Bool-cases}
use meta_loop.Base.Lists.{length, all}

-- The characters' numbers.
abbrev pub codes : String → List ℕ
codes String.[] = []
codes (String.◌∷◌ c s) = code c ∷ codes s

-- `len(s)`
abbrev pub len : String → ℕ
len s = length (codes s)

-- `not s`, for a text and for an optional text
abbrev pub is_empty : String → Bool
is_empty s = s == ""

abbrev pub is_falsy : Option String → Bool
is_falsy none = true
is_falsy (some s) = is_empty s

-- `s < t`
abbrev pub str_lt : String → String → Bool
str_lt s t = is_lt (compare s t)

abbrev pub is_digit : ℕ → Bool
is_digit c = leb b'0' c && leb c b'9'

abbrev pub is_lower : ℕ → Bool
is_lower c = leb b'a' c && leb c b'z'

abbrev pub is_upper : ℕ → Bool
is_upper c = leb b'A' c && leb c b'Z'

-- `[A-Za-z0-9]`
abbrev pub is_alnum : ℕ → Bool
is_alnum c = is_digit c || is_lower c || is_upper c

-- `0123456789abcdef`
abbrev pub is_hex : ℕ → Bool
is_hex c = is_digit c || (leb b'a' c && leb c b'f')

-- `".." in s`
abbrev pub has_dots : List ℕ → Bool
has_dots [] = false
has_dots (c ∷ []) = false
has_dots (c ∷ d ∷ s) = (leb b'.' c && leb c b'.' && leb b'.' d && leb d b'.') || has_dots (d ∷ s)

-- the texts one after the other, as an f-string writes them
abbrev pub str_append : String → String → String
str_append s t = Prim.Native.String.◌++◌ s t

-- what follows a beginning, if the text has it
abbrev pub drop_prefix : List ℕ → List ℕ → Option (List ℕ)
drop_prefix [] s = some s
drop_prefix (c ∷ p) [] = none
drop_prefix (c ∷ p) (d ∷ s) = if c == d then drop_prefix p s else none

abbrev is_some : Option (List ℕ) → Bool
is_some none = false
is_some (some _) = true

-- `s.startswith(p)`
abbrev pub starts_with : List ℕ → List ℕ → Bool
starts_with p s = is_some (drop_prefix p s)

-- `p in s`
abbrev pub contains : List ℕ → List ℕ → Bool
contains p [] = p == []
contains p (c ∷ s) = starts_with p (c ∷ s) || contains p s

-- the characters that `\s` matches and `strip` removes
abbrev pub is_space : ℕ → Bool
is_space c =
    (leb 9 c && leb c 13)
    || (leb 28 c && leb c 32)
    || c == 133
    || c == 160
    || c == 5760
    || (leb 8192 c && leb c 8202)
    || c == 8232
    || c == 8233
    || c == 8239
    || c == 8287
    || c == 12288

-- `not s.strip()`
abbrev pub is_blank : String → Bool
is_blank s = all is_space (codes s)

-- `s.casefold()` for ASCII
abbrev pub lower : ℕ → ℕ
lower c = if is_upper c then c + 32 else c

-- a test of a chain of tests on a text, and what follows it
pub text_case {ℓ} :
    {A : Type ℓ} (f : A → String) (v w : String) (x k : A) (rest : Option A)
    → f x ≡ w
    → (rest ≡ some k → v ≡ f k)
    → (if v == w then some x else rest) ≡ some k
    → v ≡ f k
text_case f v w x k rest e g h = elim (Bool-cases (v == w)) [
  | inl a ↦
      let q : x ≡ k = ground (arith, a, h) in
      let r : v ≡ w = ground (arith, a) in r ∙ (sym e ∙ ap f q)
  | inr a ↦ g (ground (arith, a, h))
]
