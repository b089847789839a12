-- ===== src/Base/Decimal.antt =====
-- The decimal text of a number consists of digits.
use Prim.Native.Nat.{ℕ, zero, suc, ◌+◌, ◌/◌, ◌%◌, ◌≤◌, ◌<◌}
use mathlib.Core.Logic.{inl, inr}
use mathlib.Core.List.{[], ◌∷◌}
use native.Mathlib.Omega.{arith}
use aerosuite.Base.Tests.{ltb, Bool-cases}
use aerosuite.Base.Lists.{All}
use aerosuite.Base.Text.{Bytes, decimal_digits, to_decimal}

abbrev pub IsDigit : ℕ → Type 0
IsDigit c = (48 ≤ c) × (c < 58)

decimal_digits-IsDigit :
    (fuel n : ℕ) (out : Bytes) → All IsDigit out → All IsDigit (decimal_digits fuel n out)
unfolding decimal_digits
decimal_digits-IsDigit zero n out h = h
decimal_digits-IsDigit (suc fuel) n out h =
    let more : All IsDigit ((48 + n % 10) ∷ out) = ((omega arith, omega arith), h) in
    elim (Bool-cases (ltb n 10)) [
      | inl e ↦ rw e more
      | inr e ↦ rw e (decimal_digits-IsDigit fuel (n / 10) ((48 + n % 10) ∷ out) more)
    ]

pub to_decimal-IsDigit : (n : ℕ) → All IsDigit (to_decimal n)
unfolding to_decimal
to_decimal-IsDigit n = decimal_digits-IsDigit (suc n) n [] tt
