-- ===== src/Services/Issues/Search.antt =====
-- application/ingestion.py: the blocks of a text, as the pattern `_FENCE` means them.
use meta_loop.Services.Issues.Fence.{block_at-length, drop_prefix-append}
use meta_loop.Services.Issues.{skip_line, until_fence, block_at, blocks, fence, marker}
use meta_loop.Base.{
  List, ℕ, All, ◌≢◌, ◌∷◌, ◌≡◌, [], drop_prefix, ◌++◌, length, is_space, some, none, ◌≤◌, true,
  arith, Option-cases, ap, suc, ◌↔◌, inl, sym, inr, ◌∙◌, zero, refl,
}
use mathlib.Core.Path.{subst}

-- white space
abbrev pub IsBlank : List ℕ → Type 0
IsBlank = All (λ c. is_space c ≡ true)

-- no line ends in the white space at the beginning
abbrev pub HasNoBreak : List ℕ → Type 0
HasNoBreak t = (w u : List ℕ) → IsBlank w → t ≢ w ++ 10 ∷ u

-- the text after which the fence stands, and no earlier fence
abbrev pub IsFirst : List ℕ → List ℕ → Type 0
IsFirst [] r = Unit
IsFirst (c ∷ b) r = ((q : List ℕ) → (c ∷ b) ++ fence ++ r ≢ fence ++ q) × IsFirst b r

-- A text begins with a block: the marker, white space up to the last line end in it, the content up
-- to the first fence, and the rest.
abbrev pub IsBlock : List ℕ → List ℕ → List ℕ → Type 0
IsBlock s b r =
    ((w : List ℕ) × IsBlank w × (s ≡ marker ++ w ++ 10 ∷ (b ++ fence ++ r)))
    × HasNoBreak (b ++ fence ++ r)
    × IsFirst b r

-- The blocks of a text from left to right, none of them within another: a block is taken wherever one
-- begins, and a character is passed over only where none begins.
pub data Found : List ℕ → List (List ℕ) → Type 0 where
  done : Found [] []
  taken : {s b r : List ℕ} {bs : List (List ℕ)} → IsBlock s b r → Found r bs → Found s (b ∷ bs)
  passed :
      {c : ℕ} {s : List ℕ} {bs : List (List ℕ)}
      → ((b r : List ℕ) → ¬ IsBlock (c ∷ s) b r)
      → Found s bs
      → Found (c ∷ s) bs

drop_prefix-eq : (p s r : List ℕ) → drop_prefix p s ≡ some r → s ≡ p ++ r
drop_prefix-eq [] s r h = ground (arith, h)
drop_prefix-eq (c ∷ p) [] r h = cc
drop_prefix-eq (c ∷ p) (d ∷ s) r h = ground (arith, h, drop_prefix-eq p s r)

skip_line-finds : (w u : List ℕ) → IsBlank w → skip_line (w ++ 10 ∷ u) ≢ none
unfolding skip_line
skip_line-finds [] u h e = elim (Option-cases (skip_line u)) [
  | inl a ↦ ground (arith, a, e)
  | inr (t, a) ↦ ground (arith, a, e)
]
skip_line-finds (c ∷ w) u h e = elim (Option-cases (skip_line (w ++ 10 ∷ u))) [
  | inl a ↦ skip_line-finds w u h.1 a
  | inr (t, a) ↦ ground (arith, a, h.0, e)
]

skip_line-HasNoBreak : (t : List ℕ) → skip_line t ≡ none → HasNoBreak t
skip_line-HasNoBreak t h w u b e = skip_line-finds w u b (ap skip_line (sym e) ∙ h)

-- the last line end of the white space
skip_line_lem :
    (s t : List ℕ)
    → skip_line s ≡ some t
    → ((w : List ℕ) × IsBlank w × (s ≡ w ++ 10 ∷ t)) × HasNoBreak t
unfolding skip_line
skip_line_lem [] t h = cc
skip_line_lem (c ∷ s) t h = elim (Option-cases (skip_line s)) [
  | inr (u, a) ↦
      let q : u ≡ t = ground (arith, a, h) in
      let ((w, b, e), n) = skip_line_lem s t (a ∙ ap some q) in
      ((c ∷ w, (ground (arith, a, h), b), ap (λ z. c ∷ z) e), n)
  | inl a ↦
      let q : s ≡ t = ground (arith, a, h) in
      (([], tt, ground (arith, a, h)), skip_line-HasNoBreak t (ap skip_line (sym q) ∙ a))
]

skip_line-none : (t : List ℕ) → HasNoBreak t → skip_line t ≡ none
skip_line-none t n = elim (Option-cases (skip_line t)) [
  | inl a ↦ a
  | inr (u, a) ↦ let ((w, b, e), _) = skip_line_lem t u a in absurd (n w u b e)
]

skip_line-some : (w t : List ℕ) → IsBlank w → HasNoBreak t → skip_line (w ++ 10 ∷ t) ≡ some t
unfolding skip_line
skip_line-some [] t b n = ground (arith, skip_line-none t n)
skip_line-some (c ∷ w) t b n = ground (arith, b.0, skip_line-some w t b.1 n)

no_prefix : (p s q : List ℕ) → drop_prefix p s ≡ none → s ≢ p ++ q
no_prefix p s q h e = ground (arith, h, ap (drop_prefix p) e, drop_prefix-append p q)

until_fence_lem :
    (s b r : List ℕ) → until_fence s ≡ some (b, r) → (s ≡ b ++ fence ++ r) × IsFirst b r
unfolding until_fence
until_fence_lem [] b r h = cc
until_fence_lem (c ∷ s) b r h = elim (Option-cases (drop_prefix fence (c ∷ s))) [
  | inr (t, a) ↦
      let p : [] ≡ b = ground (arith, a, h) in
      let q : t ≡ r = ground (arith, a, h) in
      let e = drop_prefix-eq fence (c ∷ s) t a in
      subst (λ z. (c ∷ s ≡ z ++ fence ++ r) × IsFirst z r) p (e ∙ ap (λ z. fence ++ z) q, tt)
  | inl a ↦ elim (Option-cases (until_fence s)) [
    | inl f ↦ ground (arith, a, f, h)
    | inr ((d, t), f) ↦
        let p : c ∷ d ≡ b = ground (arith, a, f, h) in
        let q : t ≡ r = ground (arith, a, f, h) in
        let (e, n) = until_fence_lem s d r (f ∙ ap (λ z. some (d, z)) q) in
        let g : c ∷ s ≡ (c ∷ d) ++ fence ++ r = ap (λ z. c ∷ z) e in
        subst (λ z. (c ∷ s ≡ z ++ fence ++ r) × IsFirst z r) p
          (g, ((λ k x. no_prefix fence (c ∷ s) k a (g ∙ x)), n))
  ]
]

until_fence-first : (b r : List ℕ) → IsFirst b r → until_fence (b ++ fence ++ r) ≡ some (b, r)
unfolding until_fence
until_fence-first [] r n = ground (arith, drop_prefix-append fence r)
until_fence-first (c ∷ b) r (n, m) =
    elim (Option-cases (drop_prefix fence ((c ∷ b) ++ fence ++ r))) [
      | inl a ↦ ground (arith, a, until_fence-first b r m)
      | inr (q, a) ↦ absurd (n q (drop_prefix-eq fence ((c ∷ b) ++ fence ++ r) q a))
    ]

block_at-IsBlock : (s b r : List ℕ) → block_at s ≡ some (b, r) → IsBlock s b r
unfolding block_at
block_at-IsBlock s b r h = elim (Option-cases (drop_prefix marker s)) [
  | inl a ↦ ground (arith, a, h)
  | inr (t, a) ↦ elim (Option-cases (skip_line t)) [
    | inl c ↦ ground (arith, a, c, h)
    | inr (u, c) ↦
        let e = drop_prefix-eq marker s t a in
        let ((w, k, f), n) = skip_line_lem t u c in
        let (g, m) = until_fence_lem u b r (ground (arith, a, c, h)) in
        (
          (w, k, e ∙ (ap (λ z. marker ++ z) f ∙ ap (λ z. marker ++ (w ++ 10 ∷ z)) g)),
          subst HasNoBreak g n,
          m,
        )
  ]
]

block_at-steps :
    (s t u b r : List ℕ)
    → drop_prefix marker s ≡ some t
    → skip_line t ≡ some u
    → until_fence u ≡ some (b, r)
    → block_at s ≡ some (b, r)
unfolding block_at
block_at-steps s t u b r e f g = ground (arith, e, f, g)

IsBlock-block_at : (s b r : List ℕ) → IsBlock s b r → block_at s ≡ some (b, r)
IsBlock-block_at s b r ((w, k, e), n, m) =
    let f : drop_prefix marker s ≡ some (w ++ 10 ∷ (b ++ fence ++ r)) =
      ap (drop_prefix marker) e ∙ drop_prefix-append marker (w ++ 10 ∷ (b ++ fence ++ r)) in
    block_at-steps s (w ++ 10 ∷ (b ++ fence ++ r)) (b ++ fence ++ r) b r f
      (skip_line-some w (b ++ fence ++ r) k n) (until_fence-first b r m)

not_IsBlock : (s b r : List ℕ) → block_at s ≡ none → ¬ IsBlock s b r
not_IsBlock s b r h k = ground (arith, h, IsBlock-block_at s b r k)

block_at-none : (s : List ℕ) → ((b r : List ℕ) → ¬ IsBlock s b r) → block_at s ≡ none
block_at-none s h = elim (Option-cases (block_at s)) [
  | inl a ↦ a
  | inr ((b, r), a) ↦ absurd (h b r (block_at-IsBlock s b r a))
]

blocks-Found : (n : ℕ) (s : List ℕ) → length s ≤ n → Found s (blocks n s)
unfolding blocks
blocks-Found zero [] h = done
blocks-Found zero (c ∷ s) h = ground (arith, h)
blocks-Found (suc n) [] h = done
blocks-Found (suc n) (c ∷ s) h = elim (Option-cases (block_at (c ∷ s))) [
  | inl a ↦
      let e : blocks n s ≡ blocks (suc n) (c ∷ s) = ground (arith, a) in
      subst (Found (c ∷ s)) e
        (passed (λ b r. not_IsBlock (c ∷ s) b r a) (blocks-Found n s (omega (arith, h))))
  | inr ((b, r), a) ↦
      let e : b ∷ blocks n r ≡ blocks (suc n) (c ∷ s) = ground (arith, a) in
      let l = block_at-length (c ∷ s) b r a in
      subst (Found (c ∷ s)) e
        (taken (block_at-IsBlock (c ∷ s) b r a) (blocks-Found n r (omega (arith, h, l))))
]

taken-blocks :
    (n : ℕ) (s b r : List ℕ) (bs : List (List ℕ))
    → length s ≤ n
    → IsBlock s b r
    → ((m : ℕ) → length r ≤ m → blocks m r ≡ bs)
    → blocks n s ≡ b ∷ bs
unfolding blocks
taken-blocks n [] b r bs h k f =
    let a = IsBlock-block_at [] b r k in let l = block_at-length [] b r a in ground (arith, l)
taken-blocks zero (c ∷ s) b r bs h k f = ground (arith, h)
taken-blocks (suc n) (c ∷ s) b r bs h k f =
    let a = IsBlock-block_at (c ∷ s) b r k in
    let l = block_at-length (c ∷ s) b r a in ground (arith, a, f n (omega (arith, h, l)))

Found-blocks :
    (n : ℕ) (s : List ℕ) (bs : List (List ℕ)) → length s ≤ n → Found s bs → blocks n s ≡ bs
unfolding blocks
Found-blocks zero _ _ h done = refl
Found-blocks (suc n) _ _ h done = refl
Found-blocks n s _ h (taken {b = b} {r = r} {bs = bs} k f) =
    taken-blocks n s b r bs h k (λ m l. Found-blocks m r bs l f)
Found-blocks (suc n) _ bs h (passed {c = c} {s = s} k f) =
    ground (arith, block_at-none (c ∷ s) k, Found-blocks n s bs (omega (arith, h)) f)
Found-blocks zero _ bs h (passed {c = c} {s = s} k f) = ground (arith, h)

-- The search finds exactly the blocks of a text, from left to right: fuel for each character is
-- enough, and its result is the one list that the pattern describes.
pub blocks_iff :
    (n : ℕ) (s : List ℕ) (bs : List (List ℕ)) → length s ≤ n → (blocks n s ≡ bs) ↔ Found s bs
blocks_iff n s bs h = (λ e. subst (Found s) e (blocks-Found n s h), Found-blocks n s bs h)
