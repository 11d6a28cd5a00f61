-- ===== src/Prelude/Equality.antt =====
-- Python's `==` as an interface: numbers, texts, optional values.
use Prim.Native.Nat.{ℕ}
use Prim.Native.String.{String}
use mathlib.Core.Path.{◌≡◌, refl}
use mathlib.Core.Logic.{◌↔◌}
use mathlib.Core.Bool.{Bool, true, false, not, ◌||◌}
use mathlib.Core.Option.{Option, none, some}
use mathlib.Core.List.{List, [], ◌∷◌}
use native.Mathlib.Omega.{arith}
use text.Mathlib.Text.{◌==◌ as str_eq}
use text.Mathlib.TextEquality.{eq_iff}
use paperread.Prelude.Tests.{nat_beq, nat_beq_iff}

-- A type whose values Python compares by `==`: the test, and that it tells what is equal.
pub record Eq {ℓ} (K : Type ℓ) : Type ℓ where
  pub test : K → K → Bool
  pub tests : (left right : K) → (test left right ≡ true) ↔ (left ≡ right)

infix 50 ◌!=◌ ◌==◌
abbrev pub ◌!=◌ {ℓ} : {K : Type ℓ} ⦃k : Eq K⦄ → K → K → Bool
◌!=◌ ⦃k⦄ left right = not (k.test left right)

abbrev pub ◌==◌ {ℓ} : {K : Type ℓ} ⦃k : Eq K⦄ → K → K → Bool
◌==◌ ⦃k⦄ left right = k.test left right

instance abbrev pub nat_eq : Eq ℕ
nat_eq = record { test = nat_beq; tests = nat_beq_iff }

instance abbrev pub string_eq : Eq String
string_eq = record { test = str_eq; tests = eq_iff }

module _ {ℓ} {A : Type ℓ} ⦃e : Eq A⦄ where
  -- `None` equals only `None`.
  abbrev pub option_beq : Option A → Option A → Bool
  option_beq none none = true
  option_beq none (some b) = false
  option_beq (some a) none = false
  option_beq (some a) (some b) = e.test a b

  pub option_beq_iff : (a b : Option A) → (option_beq a b ≡ true) ↔ (a ≡ b)
  option_beq_iff none none = ((λ h. refl), (λ h. refl))
  option_beq_iff none (some b) = ground arith
  option_beq_iff (some a) none = ground arith
  option_beq_iff (some a) (some b) = ground (arith, e.tests a b)

  -- `a in xs`
  abbrev pub contains : List A → A → Bool
  contains [] a = false
  contains (x ∷ xs) a = a == x || contains xs a

instance abbrev pub option_eq {ℓ} : {A : Type ℓ} ⦃e : Eq A⦄ → Eq (Option A)
option_eq ⦃e⦄ = record { test = option_beq; tests = option_beq_iff }
