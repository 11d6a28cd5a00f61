-- ===== src/Prelude/Outcome.antt =====
-- What a call returns, or the `BatchRuntimeError` that it raises (`v2_errors.py`).
use Prim.Native.String.{String}
use mathlib.Core.Path.{◌≡◌, refl, ap}
use mathlib.Core.Logic.{◌⊎◌, inl, inr}
use mathlib.Core.Bool.{Bool, true, false}
use mathlib.Core.Option.{Option, none, some}

pub record RuntimeError : Type 0 where
  pub code : String
  pub message : String

-- a return, or a raise
pub data Result {ℓ} (V : Type ℓ) : Type ℓ where
  err : RuntimeError → Result V
  ok : V → Result V

-- `if test: raise error`
abbrev pub raise_if : Bool → RuntimeError → Result (Unit {0})
raise_if false e = ok tt
raise_if true e = err e

module _ {ℓ κ} {V : Type ℓ} {W : Type κ} where
  -- What comes after a raise is not run.
  infixl 5 ◌>>=◌
  abbrev pub ◌>>=◌ : Result V → (V → Result W) → Result W
  err e >>= rest = err e
  ok v >>= rest = rest v

  pub >>=-eq-ok :
      (first : Result V) (rest : V → Result W) {w : W}
      → (first >>= rest) ≡ ok w
      → (v : V) × (first ≡ ok v) × (rest v ≡ ok w)
  >>=-eq-ok (err e) rest h = cc
  >>=-eq-ok (ok v) rest h = (v, refl, h)

infixl 5 ◌>>◌
abbrev pub ◌>>◌ {κ} : {W : Type κ} → Result (Unit {0}) → Result W → Result W
check >> rest = check >>= λ done. rest

-- the value of an optional that must be there
abbrev pub or_raise {ℓ} : {A : Type ℓ} → Option A → RuntimeError → Result A
or_raise none e = err e
or_raise (some a) e = ok a

pub eq_of_ok {ℓ} : {A : Type ℓ} {a b : A} → ok a ≡ ok b → a ≡ b
eq_of_ok h = cc

pub or_raise-eq-ok {ℓ} :
    {A : Type ℓ} (o : Option A) (e : RuntimeError) {a : A} → or_raise o e ≡ ok a → o ≡ some a
or_raise-eq-ok none e h = cc
or_raise-eq-ok (some a) e h = ap some (eq_of_ok h)

-- Past a guard its test has failed.
pub past_guard {ℓ} :
    {A : Type ℓ} (t : Bool) (e : RuntimeError) (k : Result A) {a : A}
    → (raise_if t e >> k) ≡ ok a
    → (t ≡ false) × (k ≡ ok a)
past_guard true e k h = cc
past_guard false e k h = (refl, h)

pub Result-cases {ℓ} :
    {A : Type ℓ} (r : Result A) → ((a : A) × (r ≡ ok a)) ⊎ ((e : RuntimeError) × (r ≡ err e))
Result-cases (ok a) = inl (a, refl)
Result-cases (err e) = inr (e, refl)
