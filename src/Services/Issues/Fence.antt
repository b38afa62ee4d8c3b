-- ===== src/Services/Issues/Fence.antt =====
-- application/ingestion.py: what `_FENCE.findall` finds.
use meta_loop.Services.Issues.{fence, marker, skip_line, until_fence, block_at, blocks}
use meta_loop.Base.{
  List, ℕ, ◌≡◌, ◌≢◌, ◌≤◌, ◌<◌, ◌+◌, ◌++◌, ◌∷◌, [], some, none, drop_prefix, length, arith, All,
  zero, suc, refl, is_space, false, Option-cases, inl, inr, nat_eq,
}

drop_prefix-length : (p s r : List ℕ) → drop_prefix p s ≡ some r → length p + length r ≡ length s
drop_prefix-length [] s r h = ground (arith, h)
drop_prefix-length (c ∷ p) [] r h = cc
drop_prefix-length (c ∷ p) (d ∷ s) r h = ground (arith, h, drop_prefix-length p s r)

pub drop_prefix-append : (p s : List ℕ) → drop_prefix p (p ++ s) ≡ some s
drop_prefix-append [] s = refl
drop_prefix-append (c ∷ p) s = ground (arith, drop_prefix-append p s)

skip_line-length : (s r : List ℕ) → skip_line s ≡ some r → length r ≤ length s
unfolding skip_line
skip_line-length [] r h = cc
skip_line-length (c ∷ s) r h = elim (Option-cases (skip_line s)) [
  | inl e ↦ ground (arith, e, h)
  | inr (t, e) ↦ ground (arith, e, h, skip_line-length s t e)
]

until_fence-length : (s b r : List ℕ) → until_fence s ≡ some (b, r) → length r ≤ length s
unfolding until_fence
until_fence-length [] b r h = cc
until_fence-length (c ∷ s) b r h = elim (Option-cases (drop_prefix fence (c ∷ s))) [
  | inr (t, e) ↦ ground (arith, e, h, drop_prefix-length fence (c ∷ s) t e)
  | inl e ↦ elim (Option-cases (until_fence s)) [
    | inl f ↦ ground (arith, e, f, h)
    | inr ((d, t), f) ↦ ground (arith, e, f, h, until_fence-length s d t f)
  ]
]

-- what follows a block is shorter
pub block_at-length : (s b r : List ℕ) → block_at s ≡ some (b, r) → length r < length s
unfolding block_at
block_at-length s b r h = elim (Option-cases (drop_prefix marker s)) [
  | inl e ↦ ground (arith, e, h)
  | inr (t, e) ↦ elim (Option-cases (skip_line t)) [
    | inl f ↦ ground (arith, e, f, h)
    | inr (u, f) ↦
        let a = drop_prefix-length marker s t e in
        let b' = skip_line-length t u f in
        let c = until_fence-length u b r (ground (arith, e, f, h)) in omega (arith, a, b', c)
  ]
]

-- a text without backticks
abbrev pub NoTick : List ℕ → Type 0
NoTick = All (λ c. c ≢ b'`')

until_fence-lem : (c t : List ℕ) → NoTick c → until_fence (c ++ fence ++ t) ≡ some (c, t)
unfolding until_fence
until_fence-lem [] t h = ground arith
until_fence-lem (x ∷ c) t h = ground (arith, h.0, until_fence-lem c t h.1)

block_at-lem :
    (x : ℕ) (c t : List ℕ)
    → is_space x ≡ false
    → NoTick (x ∷ c)
    → block_at (marker ++ 10 ∷ (x ∷ c) ++ fence ++ t) ≡ some (x ∷ c, t)
unfolding block_at skip_line
block_at-lem x c t b h =
    ground (
      arith,
      drop_prefix-append marker (10 ∷ (x ∷ c) ++ fence ++ t),
      b,
      until_fence-lem (x ∷ c) t h,
    )

not_block : (y : ℕ) (s : List ℕ) → y ≢ b'`' → block_at (y ∷ s) ≡ none
unfolding block_at
not_block y s h = ground (arith, h)

no_blocks : (n : ℕ) (s : List ℕ) → NoTick s → blocks n s ≡ []
unfolding blocks block_at
no_blocks zero s h = refl
no_blocks (suc n) [] h = refl
no_blocks (suc n) (c ∷ s) h = ground (arith, h.0, no_blocks n s h.1)

-- one block between texts without backticks
pub blocks-one :
    (n x : ℕ) (before c after : List ℕ)
    → is_space x ≡ false
    → NoTick before
    → NoTick (x ∷ c)
    → NoTick after
    → length (before ++ marker ++ 10 ∷ (x ∷ c) ++ fence ++ after) ≤ n
    → blocks n (before ++ marker ++ 10 ∷ (x ∷ c) ++ fence ++ after) ≡ (x ∷ c) ∷ []
unfolding blocks
blocks-one zero x [] c after b p h q k = ground (arith, k)
blocks-one zero x (y ∷ before) c after b p h q k = ground (arith, k)
blocks-one (suc n) x [] c after b p h q k =
    ground (arith, block_at-lem x c after b h, no_blocks n after q)
blocks-one (suc n) x (y ∷ before) c after b p h q k = ground (
  arith,
  not_block y (before ++ marker ++ 10 ∷ (x ∷ c) ++ fence ++ after) p.0,
  blocks-one n x before c after b p.1 h q,
  k,
)
