-- ===== src/Prelude/Text/Decimal.antt =====
-- Numbers in decimal.
use Prim.Native.Nat.{ℕ, zero, suc, ◌+◌, ◌/◌, ◌%◌, ◌≤◌}
use mathlib.Core.Logic.{inl, inr}
use mathlib.Core.List.{[], ◌∷◌}
use native.Mathlib.Omega.{arith}
use dial_f.Prelude.Tests.{ltb, Bool-cases}
use dial_f.Prelude.Lists.{All}
use dial_f.Prelude.Text.{Text, decimal, decimal_digits}

abbrev pub IsDigit : ℕ → Type 0
IsDigit c = (48 ≤ c) × (c ≤ 57)

decimal_digits-IsDigit :
    (fuel n : ℕ) (acc : Text) → All IsDigit acc → All IsDigit (decimal_digits fuel n acc)
unfolding decimal_digits
decimal_digits-IsDigit zero n acc a = a
decimal_digits-IsDigit (suc fuel) n acc a =
    let d : IsDigit (48 + n % 10) = (omega arith, omega arith) in
    elim (Bool-cases (ltb n 10)) [
      | inl e ↦ rw e (d, a)
      | inr e ↦ rw e (decimal_digits-IsDigit fuel (n / 10) ((48 + n % 10) ∷ acc) (d, a))
    ]

pub decimal-IsDigit : (n : ℕ) → All IsDigit (decimal n)
unfolding decimal
decimal-IsDigit n = decimal_digits-IsDigit (suc n) n [] tt
