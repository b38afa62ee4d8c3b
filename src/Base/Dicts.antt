-- ===== src/Base/Dicts.antt =====
-- Python's `dict`, in insertion order: assignment to a present key keeps its place.
use mathlib.Core.Path.{◌≡◌, refl, sym, subst, subst₂}
use mathlib.Core.Bool.{true, false}
use mathlib.Core.Logic.{◌≢◌}
use mathlib.Core.Option.{Option, none, some}
use mathlib.Core.List.{List, [], ◌∷◌}
use native.Mathlib.Omega.{arith}
use meta_loop.Base.Equality.{Eq, ◌==◌}
use meta_loop.Base.Tests.{if◌then◌else◌}

abbrev pub Dict {ℓ} : Type ℓ → Type ℓ → Type ℓ
Dict K V = List (K × V)

module _ {ℓ} {K V : Type ℓ} ⦃e : Eq K⦄ where
  -- `d.get(k)`
  unfoldable pub get : K → Dict K V → Option V
  get k [] = none
  get k ((j, v) ∷ d) = if k == j then some v else get k d

  -- `d[k] = v`
  unfoldable pub put : K → V → Dict K V → Dict K V
  put k v [] = (k, v) ∷ []
  put k v ((j, w) ∷ d) = if k == j then (j, v) ∷ d else (j, w) ∷ put k v d

  -- `del d[k]`
  unfoldable pub del : K → Dict K V → Dict K V
  del k [] = []
  del k ((j, w) ∷ d) = if k == j then d else (j, w) ∷ del k d

  -- No key is listed twice.
  abbrev pub IsDict : Dict K V → Type ℓ
  IsDict [] = Unit
  IsDict ((k, v) ∷ d) = (get k d ≡ none) × IsDict d

  pub get-put :
      (k j : K) (v : V) (d : Dict K V) → get j (put k v d) ≡ (if j == k then some v else get j d)
  unfolding get put
  get-put k j v [] = refl
  get-put k j v ((i, w) ∷ d) = ground (arith, get-put k j v d)

  pub get-put_self : (k : K) (v : V) (d : Dict K V) → get k (put k v d) ≡ some v
  get-put_self k v d = ground (arith, get-put k k v d)

  pub get-put_ne : (k j : K) (v : V) (d : Dict K V) → j ≢ k → get j (put k v d) ≡ get j d
  get-put_ne k j v d h = ground (arith, get-put k j v d)

  pub get-del_ne : (k j : K) (d : Dict K V) → j ≢ k → get j (del k d) ≡ get j d
  unfolding get del
  get-del_ne k j [] h = refl
  get-del_ne k j ((i, w) ∷ d) h = ground (arith, get-del_ne k j d h)

  pub get-del_self : (k : K) (d : Dict K V) → IsDict d → get k (del k d) ≡ none
  unfolding get del
  get-del_self k [] h = refl
  get-del_self k ((i, w) ∷ d) h = ground (arith, get-del_self k d h.1)

  pub get-del :
      (k j : K) (d : Dict K V) → IsDict d → get j (del k d) ≡ (if j == k then none else get j d)
  get-del k j d h = ground (arith, get-del_self k d h, get-del_ne k j d)

  pub put-IsDict : (k : K) (v : V) (d : Dict K V) → IsDict d → IsDict (put k v d)
  unfolding put get
  put-IsDict k v [] h = (refl, tt)
  put-IsDict k v ((j, w) ∷ d) h = ground (arith, put-IsDict k v d h.1, get-put_ne k j v d)

  pub del-IsDict : (k : K) (d : Dict K V) → IsDict d → IsDict (del k d)
  unfolding del get
  del-IsDict k [] h = tt
  del-IsDict k ((j, w) ∷ d) h = ground (arith, del-IsDict k d h.1, get-del_ne k j d)

  pub put-put : (k : K) (v w : V) (d : Dict K V) → put k w (put k v d) ≡ put k w d
  unfolding put
  put-put k v w [] = ground arith
  put-put k v w ((j, u) ∷ d) = ground (arith, put-put k v w d)

-- `d.values()` and `tuple(d)`
abbrev pub values {ℓ} : {K V : Type ℓ} → Dict K V → List V
values [] = []
values ((_, v) ∷ d) = v ∷ values d

abbrev pub keys {ℓ} : {K V : Type ℓ} → Dict K V → List K
keys [] = []
keys ((k, _) ∷ d) = k ∷ keys d

-- A predicate on every item of a dictionary.
abbrev pub Each {ℓ κ} : {K V : Type ℓ} → (K → V → Type κ) → Dict K V → Type κ
Each P [] = Unit
Each P ((k, v) ∷ d) = P k v × Each P d

module _ {ℓ κ} {K V : Type ℓ} ⦃e : Eq K⦄ (P : K → V → Type κ) where
  pub Each-get : (k : K) (d : Dict K V) {v : V} → Each P d → get k d ≡ some v → P k v
  unfolding get
  Each-get k [] h g = cc
  Each-get k ((j, w) ∷ d) {v} h g = elim (e.dec k j) [
    | yes p ↦ let q : w ≡ v = ground arith in subst₂ P (sym p) q h.0
    | no p ↦ Each-get k d h.1 (ground arith)
  ]

  pub Each-put : (k : K) (v : V) (d : Dict K V) → Each P d → P k v → Each P (put k v d)
  unfolding put
  Each-put k v [] h p = (p, tt)
  Each-put k v ((j, w) ∷ d) h p =
      elim (e.dec k j)
        as (λ c.
          Each P
            (if (elim c [ yes _ ↦ true | no _ ↦ false ]) then (j, v) ∷ d else (j, w) ∷ put k v d)) [
              | yes q ↦ (subst (λ i. P i v) q p, h.1)
              | no q ↦ (h.0, Each-put k v d h.1 p)
            ]

  pub Each-del : (k : K) (d : Dict K V) → Each P d → Each P (del k d)
  unfolding del
  Each-del k [] h = tt
  Each-del k ((j, w) ∷ d) h =
      elim (e.dec k j)
        as (λ c.
          Each P (if (elim c [ yes _ ↦ true | no _ ↦ false ]) then d else (j, w) ∷ del k d)) [
            | yes q ↦ h.1
            | no q ↦ (h.0, Each-del k d h.1)
          ]
