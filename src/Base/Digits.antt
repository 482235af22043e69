-- ===== src/Base/Digits.antt =====
-- One equation for the lowest digit of `&` and of `|`, from the digit recursion that the native
-- operations stand for.
use Prim.Native.Nat.{
  ℕ, zero, suc, ◌+◌, ◌*◌, ◌/◌, ◌%◌, ◌≤◌, min, max, bit_and, bit_or, digits, bitwise,
  bit_and-bitwise, bit_or-bitwise,
}
use mathlib.Core.Path.{◌≡◌, refl}
use native.Mathlib.Omega.{arith}

module _ (rest : ℕ → ℕ) (op : ℕ → ℕ → ℕ) where
  -- Fuel from the first number on gives the same digits, whatever its amount.
  fuel_irrelevant : (x y s t : ℕ) → x ≤ s → x ≤ t → digits rest op s x y ≡ digits rest op t x y
  fuel_irrelevant zero y zero zero hs ht = refl
  fuel_irrelevant zero y (suc s) zero hs ht = refl
  fuel_irrelevant zero y zero (suc t) hs ht = refl
  fuel_irrelevant zero y (suc s) (suc t) hs ht = refl
  fuel_irrelevant (suc x) y zero t hs ht = absurd (omega arith)
  fuel_irrelevant (suc x) y (suc s) zero hs ht = absurd (omega arith)
  fuel_irrelevant (suc x) y (suc s) (suc t) hs ht =
      rw (fuel_irrelevant (suc x / 2) (y / 2) s t (omega arith) (omega arith))

  low_digit :
      (x y : ℕ)
      → bitwise rest op (suc x) y ≡ op (suc x % 2) (y % 2) + 2 * bitwise rest op (suc x / 2) (y / 2)
  low_digit x y =
      omega (arith, fuel_irrelevant (suc x / 2) (y / 2) x (suc x / 2) (omega arith) (omega arith))

pub bit_and_step : (x y : ℕ) → bit_and x y ≡ min (x % 2) (y % 2) + 2 * bit_and (x / 2) (y / 2)
bit_and_step zero y = simp bit_and-bitwise (omega arith)
bit_and_step (suc x) y = simp bit_and-bitwise (low_digit (λ t. 0) min x y)

pub bit_or_step : (x y : ℕ) → bit_or x y ≡ max (x % 2) (y % 2) + 2 * bit_or (x / 2) (y / 2)
bit_or_step zero y = simp bit_or-bitwise (omega arith)
bit_or_step (suc x) y = simp bit_or-bitwise (low_digit (λ t. t) max x y)
