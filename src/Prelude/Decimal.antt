-- ===== src/Prelude/Decimal.antt =====
-- `str` of a natural number.
use Prim.Native.Nat.{ℕ, zero, suc, ◌+◌, ◌/◌, ◌%◌, ◌≤◌}
use mathlib.Core.List.{[], ◌∷◌, ◌++◌}
use mathlib.Core.Logic.{inl, inr}
use native.Mathlib.Omega.{arith}
use editorial_team_v.Prelude.Tests.{ltb, if◌then◌else◌, Bool-cases}
use editorial_team_v.Prelude.Lists.{All, All-append}
use editorial_team_v.Prelude.Texts.{Text}

-- The fuel is the number itself: a division by ten at least halves it.
decimal_within : ℕ → ℕ → Text
decimal_within zero n = []
decimal_within (suc fuel) n =
    let front = decimal_within fuel (n / 10) in
    if ltb n 10 then (48 + n) ∷ [] else front ++ ((48 + n % 10) ∷ [])

unfoldable pub decimal : ℕ → Text
unfolding decimal_within
decimal n = decimal_within (suc n) n

decimal_within-digits : (fuel n : ℕ) → All (λ c. (48 ≤ c) × (c ≤ 57)) (decimal_within fuel n)
unfolding decimal_within
decimal_within-digits zero n = tt
decimal_within-digits (suc fuel) n = elim (Bool-cases (ltb n 10)) [
  | inl b ↦ rw (b, decimal_within) ((omega arith, ground arith), tt)
  | inr b ↦
      rw (b, decimal_within)
        (All-append (λ c. (48 ≤ c) × (c ≤ 57)) (decimal_within fuel (n / 10)) ((48 + n % 10) ∷ [])
          (decimal_within-digits fuel (n / 10)) ((omega arith, omega arith), tt))
]

-- A numeral is of digits.
pub decimal-digits : (n : ℕ) → All (λ c. (48 ≤ c) × (c ≤ 57)) (decimal n)
unfolding decimal
decimal-digits n = decimal_within-digits (suc n) n
