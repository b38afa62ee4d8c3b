-- ===== src/Base/Errors.antt =====
-- Exceptions and mutable state. A raise leaves behind what was written before it, so the state
-- comes back beside the error too. An error is named by its class; messages are left out.
use mathlib.Core.Bool.{Bool, true, false}
use mathlib.Core.Option.{Option, none, some}
use meta_loop.Base.Tests.{if◌then◌else◌}
use mathlib.Core.Path.{◌≡◌, refl, sym, ap, ◌∙◌}
use mathlib.Core.Logic.{◌⊎◌, inl, inr}

-- domain/errors.py, Python's own `KeyError`, and any other exception
pub data Error : Type 0 where
  validation invalid_transition optimistic_conflict task_not_found create_conflict : Error
  sequence_conflict idempotency_conflict queue_conflict unsupported_schema_version : Error
  lease_lost unsupported_governance key_error other_error : Error

pub data Result {ℓ} (A : Type ℓ) : Type ℓ where
  ok : A → Result A
  err : Error → Result A

abbrev pub Exec : Type 0 → Type 0 → Type 0
Exec S A = S → Result A × S

module _ {S A : Type 0} where
  abbrev pub pure : A → Exec S A
  pure a s = (ok a, s)

  abbrev pub raise : Error → Exec S A
  raise e s = (err e, s)

  abbrev pub gets : (S → A) → Exec S A
  gets f s = (ok (f s), s)

  -- a call that reads and writes no state, and may raise
  abbrev pub lift : Result A → Exec S A
  lift r s = (r, s)

  abbrev pub or_raise : Option A → Error → Exec S A
  or_raise none e = raise e
  or_raise (some a) _ = pure a

module _ {S A B : Type 0} where
  infixl 5 ◌>>=◌ ◌>>◌
  abbrev pub ◌>>=◌ : Exec S A → (A → Exec S B) → Exec S B
  ◌>>=◌ m f s = let (r, s') = m s in elim r [ ok a ↦ f a s' | err e ↦ (err e, s') ]

  abbrev pub ◌>>◌ : Exec S A → Exec S B → Exec S B
  m >> k = m >>= λ _. k

-- `if c: raise e`
abbrev pub raise_if : {S : Type 0} → Bool → Error → Exec S Unit
raise_if c e s = (if c then err e else ok tt, s)

abbrev pub modify : {S : Type 0} → (S → S) → Exec S Unit
modify f s = (ok tt, f s)

-- The same for code that reads and writes no state.
abbrev pub guard : {A : Type 0} → Bool → Error → Result A → Result A
guard true e r = err e
guard false e r = r

-- One statement after another, where neither writes.
infixr 6 ◌and_then◌
abbrev pub ◌and_then◌ : {A : Type 0} → Result (Unit {0}) → Result A → Result A
ok _ and_then r = r
err e and_then r = err e

-- A call on a part of the state.
abbrev pub zoom : {S T A : Type 0} → (S → T) → (T → S → S) → Exec T A → Exec S A
zoom view update m s = let (r, t) = m (view s) in (r, update t s)

pub Result-cases {ℓ} :
    {A : Type ℓ} (r : Result A) → ((a : A) × (r ≡ ok a)) ⊎ ((e : Error) × (r ≡ err e))
Result-cases (ok a) = inl (a, refl)
Result-cases (err e) = inr (e, refl)

abbrev continue : {S A B : Type 0} → (A → Exec S B) → Result A × S → Result B × S
continue f (ok a, s) = f a s
continue f (err e, s) = (err e, s)

continue_ok :
    {S A B : Type 0} (f : A → Exec S B) (x : Result A × S) (b : B)
    → (continue f x).0 ≡ ok b
    → (a : A) × (x.0 ≡ ok a) × (continue f x ≡ f a x.1)
continue_ok f (ok a, s) b h = (a, refl, refl)
continue_ok f (err e, s) b h = cc

>>=-continue :
    {S A B : Type 0} (m : Exec S A) (f : A → Exec S B) (s : S) → (m >>= f) s ≡ continue f (m s)
>>=-continue m f s = elim (Result-cases (m s).0) [ inl (a, e) ↦ cc | inr (x, e) ↦ cc ]

-- A sequence that returns has a first part that returns, and goes on from its state.
pub bind_ok :
    {S A B : Type 0} (m : Exec S A) (f : A → Exec S B) (s : S) (b : B)
    → ((m >>= f) s).0 ≡ ok b
    → (a : A) × ((m s).0 ≡ ok a) × ((m >>= f) s ≡ f a (m s).1)
bind_ok m f s b h =
    let (a, e, g) = continue_ok f (m s) b (ap (λ x. x.0) (sym (>>=-continue m f s)) ∙ h) in
    (a, e, >>=-continue m f s ∙ g)
