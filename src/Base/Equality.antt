-- ===== src/Base/Equality.antt =====
-- Python's `==` and `!=`, for every type whose values can be compared.
use Prim.Native.Nat.{ℕ}
use Prim.Native.String.{String}
use mathlib.Core.Path.{◌≡◌, refl}
use mathlib.Core.Bool.{Bool, true, false}
use mathlib.Core.Option.{Option, none, some}
use mathlib.Core.List.{List, [], ◌∷◌}
use native.Mathlib.Decide.{ℕ_discrete}
use text.Mathlib.Text.{◌==◌ as str_eq}
use text.Mathlib.TextEquality.{eq_iff}

pub record Eq {ℓ} (A : Type ℓ) : Type ℓ where
  pub dec : Discrete A

infix 50 ◌==◌ ◌!=◌
abbrev pub ◌==◌ {ℓ} : {A : Type ℓ} ⦃e : Eq A⦄ → A → A → Bool
◌==◌ ⦃e⦄ a b = elim (e.dec a b) [ yes _ ↦ true | no _ ↦ false ]

abbrev pub ◌!=◌ {ℓ} : {A : Type ℓ} ⦃e : Eq A⦄ → A → A → Bool
◌!=◌ ⦃e⦄ a b = elim (e.dec a b) [ yes _ ↦ false | no _ ↦ true ]

dec_of_bool {ℓ} :
    {A : Type ℓ} {x y : A} (b : Bool) → (b ≡ true → x ≡ y) → (x ≡ y → b ≡ true) → Dec (x ≡ y)
dec_of_bool true f g = yes (f refl)
dec_of_bool false f g = no (λ e. absurd (cc (g e)))

unfoldable pub String-discrete : Discrete String
unfolding dec_of_bool
String-discrete s t = dec_of_bool (str_eq s t) (eq_iff s t).0 (eq_iff s t).1

unfoldable pub Option-discrete {ℓ} : {A : Type ℓ} → Discrete A → Discrete (Option A)
Option-discrete d none none = yes refl
Option-discrete d none (some b) = no (λ e. cc)
Option-discrete d (some a) none = no (λ e. cc)
Option-discrete d (some a) (some b) = elim (d a b) [ yes p ↦ yes (cc) | no p ↦ no (λ e. p (cc)) ]

instance abbrev pub nat_eq : Eq ℕ
nat_eq = record { dec = ℕ_discrete }

instance abbrev pub string_eq : Eq String
string_eq = record { dec = String-discrete }

instance abbrev pub option_eq {ℓ} : {A : Type ℓ} ⦃e : Eq A⦄ → Eq (Option A)
option_eq ⦃e⦄ = record { dec = Option-discrete e.dec }

unfoldable pub List-discrete {ℓ} : {A : Type ℓ} → Discrete A → Discrete (List A)
List-discrete d [] [] = yes refl
List-discrete d [] (b ∷ bs) = no (λ e. cc)
List-discrete d (a ∷ xs) [] = no (λ e. cc)
List-discrete d (a ∷ xs) (b ∷ bs) = elim (d a b) [
  | yes p ↦ elim (List-discrete d xs bs) [ yes q ↦ yes (cc) | no q ↦ no (λ e. q (cc)) ]
  | no p ↦ no (λ e. p (cc))
]

instance abbrev pub list_eq {ℓ} : {A : Type ℓ} ⦃e : Eq A⦄ → Eq (List A)
list_eq ⦃e⦄ = record { dec = List-discrete e.dec }

unfoldable pub Bool-discrete : Discrete Bool
Bool-discrete = hlevel

instance abbrev pub bool_eq : Eq Bool
bool_eq = record { dec = Bool-discrete }
