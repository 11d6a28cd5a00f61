-- ===== src/Contracts/Scalars.antt =====
-- The scalar types of v2_contracts.py. A digest (64 lower-case hex digits) and a UUID (canonical
-- lower-case form) are read as the numbers that they spell, so equal texts are equal numbers.
use Prim.Native.Nat.{ℕ, ◌+◌, ◌-◌, ◌*◌, ◌^◌}
use Prim.Native.String.{String}
use mathlib.Core.Path.{◌≡◌}
use mathlib.Core.Logic.{◌↔◌}
use mathlib.Core.Bool.{Bool, true, ◌&&◌}
use native.Mathlib.Omega.{arith}
use paperread.Prelude.Tests.{nat_beq}
use paperread.Prelude.Equality.{Eq}

abbrev pub Sha256 : Type 0
Sha256 = ℕ

abbrev pub UuidString : Type 0
UuidString = ℕ

-- `NonEmptyString` and `ItemId`
abbrev pub NonEmptyString : Type 0
NonEmptyString = String

abbrev pub ItemId : Type 0
ItemId = String

-- A timestamp's text: its calendar part, counted in seconds, and its fraction, as the count of
-- digits (0 to 6) and their value. Two texts may stand for one instant: `…00Z` and `…00.0Z`.
pub record Rfc3339Utc : Type 0 where
  pub seconds : ℕ
  pub digits : ℕ
  pub fraction : ℕ

-- The texts are compared, not the instants.
abbrev pub text_beq : Rfc3339Utc → Rfc3339Utc → Bool
text_beq a b =
    nat_beq a.seconds b.seconds && nat_beq a.digits b.digits && nat_beq a.fraction b.fraction

pub text_beq_iff : (a b : Rfc3339Utc) → (text_beq a b ≡ true) ↔ (a ≡ b)
text_beq_iff a b = ground arith

instance abbrev pub rfc3339_eq : Eq Rfc3339Utc
rfc3339_eq = record { test = text_beq; tests = text_beq_iff }

-- `_timestamp`: the instant, in microseconds. The contract has checked the text, so it parses.
abbrev pub timestamp : Rfc3339Utc → ℕ
timestamp t = t.seconds * 1000000 + t.fraction * 10 ^ (6 - t.digits)

-- `timedelta(seconds=n)`, in microseconds
abbrev pub timedelta : ℕ → ℕ
timedelta n = n * 1000000
