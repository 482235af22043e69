-- ===== src/Base/Bits.antt =====
-- The bits of a number one by one: what each word operation does to bit i, and extensionality.
use Prim.Native.Nat.{ℕ, zero, suc, ◌+◌, ◌*◌, ◌/◌, ◌^◌, ◌≤◌, min, max, bit_and, bit_or}
use mathlib.Core.Path.{◌≡◌, refl, ap}
use native.Mathlib.Nat.{pow-suc}
use native.Mathlib.Omega.{arith}
use cpu_io.Base.Word.{bit_at}
use cpu_io.Base.Digits.{bit_and_step, bit_or_step}

pub bit_at-le-one : (i x : ℕ) → bit_at i x ≤ 1
bit_at-le-one zero x = omega arith
bit_at-le-one (suc i) x = bit_at-le-one i (x / 2)

pub bit_at-bit_and : (i a b : ℕ) → bit_at i (bit_and a b) ≡ min (bit_at i a) (bit_at i b)
bit_at-bit_and zero a b = omega (arith, bit_and_step a b)
bit_at-bit_and (suc i) a b =
    let e : bit_and a b / 2 ≡ bit_and (a / 2) (b / 2) = omega (arith, bit_and_step a b) in
    rw e (bit_at-bit_and i (a / 2) (b / 2))

pub bit_at-bit_or : (i a b : ℕ) → bit_at i (bit_or a b) ≡ max (bit_at i a) (bit_at i b)
bit_at-bit_or zero a b = omega (arith, bit_or_step a b)
bit_at-bit_or (suc i) a b =
    let e : bit_or a b / 2 ≡ bit_or (a / 2) (b / 2) = omega (arith, bit_or_step a b) in
    rw e (bit_at-bit_or i (a / 2) (b / 2))

pub bit_at_zero : (i : ℕ) → bit_at i 0 ≡ 0
bit_at_zero zero = refl
bit_at_zero (suc i) = bit_at_zero i

pub mul-pow-suc : (q k : ℕ) → q * 2 ^ suc k ≡ 2 * (q * 2 ^ k)
mul-pow-suc q k = omega (arith, ap (λ (t : ℕ). q * t) (pow-suc 2 k))

-- Two numbers with the same bits are equal; the fuel bounds both.
same_bits_fuel : (n a b : ℕ) → a ≤ n → b ≤ n → ((i : ℕ) → bit_at i a ≡ bit_at i b) → a ≡ b
same_bits_fuel zero a b p q h = omega arith
same_bits_fuel (suc n) a b p q h =
    omega
      (arith, h 0, same_bits_fuel n (a / 2) (b / 2) (omega arith) (omega arith) (λ i. h (suc i)))

pub same_bits : (a b : ℕ) → ((i : ℕ) → bit_at i a ≡ bit_at i b) → a ≡ b
same_bits a b h = same_bits_fuel (a + b) a b (omega arith) (omega arith) h
