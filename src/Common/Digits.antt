-- ===== src/Common/Digits.antt =====
-- A number in decimal, as a template literal prints it, and read back.
use Prim.Native.Nat.{ℕ, zero, suc, ◌+◌, ◌*◌, ◌/◌, ◌%◌, ◌-◌, ◌<◌}
use mathlib.Core.Path.{◌≡◌, refl}
use mathlib.Core.Logic.{inl, inr}
use mathlib.Core.List.{[], ◌∷◌, ◌++◌}
use native.Mathlib.Omega.{arith}
use sagasmith.Common.Tests.{ltb, if◌then◌else◌, Bool-cases}
use sagasmith.Common.Text.{Str}

-- The digits on fuel.
unfoldable pub decimal_on : ℕ → ℕ → Str
decimal_on zero n = []
decimal_on (suc f) n =
    let rest = decimal_on f (n / 10) in
    if ltb n 10 then (48 + n) ∷ [] else rest ++ (48 + n % 10) ∷ []

unfoldable pub decimal : ℕ → Str
unfolding decimal_on
decimal n = decimal_on (suc n) n

-- What a row of digits stands for behind a number that is read.
abbrev pub decimal_value : ℕ → Str → ℕ
decimal_value n [] = n
decimal_value n (c ∷ s) = decimal_value (n * 10 + (c - 48)) s

decimal_value-append :
    (n : ℕ) (s : Str) (c : ℕ) → decimal_value n (s ++ c ∷ []) ≡ decimal_value n s * 10 + (c - 48)
decimal_value-append n [] c = refl
decimal_value-append n (d ∷ s) c = decimal_value-append (n * 10 + (d - 48)) s c

-- Fuel above the number is enough: the digits stand for it.
decimal_value-decimal_on : (f n : ℕ) → n < f → decimal_value 0 (decimal_on f n) ≡ n
unfolding decimal_on
decimal_value-decimal_on zero n h = absurd (omega (arith, h))
decimal_value-decimal_on (suc f) n h = elim (Bool-cases (ltb n 10)) [
  | inl small ↦ rw small (omega arith)
  | inr large ↦
      let ih = decimal_value-decimal_on f (n / 10) (ground arith) in
      rw (large, decimal_value-append 0 (decimal_on f (n / 10)) (48 + n % 10), ih) (omega arith)
]

pub decimal_value-decimal : (n : ℕ) → decimal_value 0 (decimal n) ≡ n
unfolding decimal
decimal_value-decimal n = decimal_value-decimal_on (suc n) n (omega arith)
