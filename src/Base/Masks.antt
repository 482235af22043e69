-- ===== src/Base/Masks.antt =====
-- Masks and disjoint fields as arithmetic, and shifts bit by bit, at every width.
use Prim.Native.Nat.{ℕ, zero, suc, ◌+◌, ◌-◌, ◌*◌, ◌/◌, ◌%◌, ◌^◌, ◌≤◌, ◌<◌, bit_and, bit_or}
use mathlib.Core.Path.{◌≡◌, ap, ◌∙◌}
use native.Mathlib.Nat.{pow-suc, one-le-pow, mul-one, suc-add, mod-eq_of_lt, mod-lt, zero-add}
use native.Mathlib.Omega.{arith}
use cpu_io.Base.Tests.{ltb, if◌then◌else◌}
use cpu_io.Base.Word.{bit_at, not64, shl64}
use cpu_io.Base.Digits.{bit_or_step}
use cpu_io.Base.Bits.{
  bit_at-le-one, bit_at_zero, bit_at-bit_and, bit_at-bit_or, mul-pow-suc, same_bits,
}

pub bit_and-zero : (a : ℕ) → bit_and a 0 ≡ 0
bit_and-zero a = same_bits (bit_and a 0) 0 λ i. omega (arith, bit_at-bit_and i a 0, bit_at_zero i)

pub bit_or-zero : (a : ℕ) → bit_or a 0 ≡ a
bit_or-zero a = same_bits (bit_or a 0) a λ i. omega (arith, bit_at-bit_or i a 0, bit_at_zero i)

pub two-pow-pos : (k : ℕ) → 0 < 2 ^ k
two-pow-pos k = one-le-pow k 2 (omega arith)

-- Halving under a power of two.
mod-double-div : (x p : ℕ) → 0 < p → x % (p * 2) / 2 ≡ x / 2 % p
mod-double-div x p h = grind arith

mod-double-mod : (x p : ℕ) → 0 < p → x % (p * 2) % 2 ≡ x % 2
mod-double-mod x p h = grind arith

div-double : (x p : ℕ) → x / (p * 2) ≡ x / 2 / p
div-double x p = grind arith

pub bit_at-mul-pow : (k i x : ℕ) → bit_at i (x * 2 ^ k) ≡ (if ltb i k then 0 else bit_at (i - k) x)
bit_at-mul-pow zero i x = ground (arith, ap (λ (t : ℕ). bit_at i t) (mul-one x))
bit_at-mul-pow (suc k) zero x = ground (arith, mul-pow-suc x k)
bit_at-mul-pow (suc k) (suc i) x =
    let e : x * 2 ^ suc k / 2 ≡ x * 2 ^ k = omega (arith, mul-pow-suc x k) in
    rw e (bit_at-mul-pow k i x ∙ ground arith)

pub bit_at-div-pow : (k i x : ℕ) → bit_at i (x / 2 ^ k) ≡ bit_at (k + i) x
bit_at-div-pow zero i x = ground arith
bit_at-div-pow (suc k) i x =
    let e : x / 2 ^ suc k ≡ x / 2 / 2 ^ k = rw (pow-suc 2 k) (div-double x (2 ^ k)) in
    rw (e, suc-add) (bit_at-div-pow k i (x / 2))

pub bit_at-mod-pow : (k i x : ℕ) → bit_at i (x % 2 ^ k) ≡ (if ltb i k then bit_at i x else 0)
bit_at-mod-pow zero i x = ground (arith, bit_at_zero i)
bit_at-mod-pow (suc k) zero x =
    rw (pow-suc 2 k) (mod-double-mod x (2 ^ k) (two-pow-pos k) ∙ ground arith)
bit_at-mod-pow (suc k) (suc i) x =
    let e : x % 2 ^ suc k / 2 ≡ x / 2 % 2 ^ k =
      rw (pow-suc 2 k) (mod-double-div x (2 ^ k) (two-pow-pos k)) in
    rw e (bit_at-mod-pow k i (x / 2) ∙ ground arith)

pub bit_at_not :
    (n i x : ℕ) → x < 2 ^ n → bit_at i (2 ^ n - 1 - x) ≡ (if ltb i n then 1 - bit_at i x else 0)
bit_at_not zero i x h = ground (arith, bit_at_zero i)
bit_at_not (suc n) zero x h = ground (arith, pow-suc 2 n)
bit_at_not (suc n) (suc i) x h =
    let e : (2 ^ suc n - 1 - x) / 2 ≡ 2 ^ n - 1 - x / 2 = omega (arith, pow-suc 2 n) in
    rw e (bit_at_not n i (x / 2) (omega (arith, pow-suc 2 n)) ∙ ground arith)

-- The bits of a run of w ones that starts at bit o.
pub bit_at-ones :
    (w o i : ℕ)
    → bit_at i ((2 ^ w - 1) * 2 ^ o) ≡ (if ltb i o then 0 else if ltb (i - o) w then 1 else 0)
bit_at-ones w o i = ground (
  arith,
  bit_at-mul-pow o i (2 ^ w - 1),
  bit_at_not w (i - o) 0,
  bit_at_zero (i - o),
  two-pow-pos w,
)

-- `x & mask` for such a run keeps the field in place.
pub bit_and-ones : (w o a : ℕ) → bit_and a ((2 ^ w - 1) * 2 ^ o) ≡ a / 2 ^ o % 2 ^ w * 2 ^ o
bit_and-ones w o a = same_bits _ _ λ i. ground (
  arith,
  bit_at-bit_and i a ((2 ^ w - 1) * 2 ^ o),
  bit_at-ones w o i,
  bit_at-mul-pow o i (a / 2 ^ o % 2 ^ w),
  bit_at-mod-pow w (i - o) (a / 2 ^ o),
  bit_at-div-pow o (i - o) a,
  bit_at-le-one i a,
)

-- `|` of disjoint parts is a sum.
pub bit_or-add : (k q r : ℕ) → r < 2 ^ k → bit_or (q * 2 ^ k) r ≡ q * 2 ^ k + r
bit_or-add zero q r h = ground (arith, bit_or-zero q)
bit_or-add (suc k) q r h = ground (
  arith,
  bit_or_step (q * 2 ^ suc k) r,
  mul-pow-suc q k,
  bit_or-add k q (r / 2) (omega (arith, pow-suc 2 k)),
)

pub pow-add : (a b : ℕ) → 2 ^ (a + b) ≡ 2 ^ a * 2 ^ b
pow-add zero b = rw (zero-add b) (omega arith)
pow-add (suc a) b = rw (suc-add) (simp (pow-suc, pow-add a b) (grind arith))

-- A number below `2 ^ k` has no bit from k on.
pub bit_at-eq-zero : (k i x : ℕ) → x < 2 ^ k → k ≤ i → bit_at i x ≡ 0
bit_at-eq-zero k i x h le =
    let e : x % 2 ^ k ≡ x = mod-eq_of_lt h in ground (arith, ap (bit_at i) e, bit_at-mod-pow k i x)

-- `x & ~mask` bit by bit.
pub bit_at-not64 :
    (i x : ℕ) → x < 2 ^ 64 → bit_at i (not64 x) ≡ (if ltb i 64 then 1 - bit_at i x else 0)
bit_at-not64 i x h = bit_at_not 64 i x h

pub lt-two-pow_of_bits : (k x : ℕ) → ((i : ℕ) → k ≤ i → bit_at i x ≡ 0) → x < 2 ^ k
lt-two-pow_of_bits k x h = rw (← low) (mod-lt x (two-pow-pos k))
  where
    low : x % 2 ^ k ≡ x
    low = same_bits _ _ λ i. ground (arith, bit_at-mod-pow k i x, h i)

-- `x << k` bit by bit.
pub bit_at-shl64 :
    (k i x : ℕ)
    → bit_at i (shl64 x k) ≡ (if ltb i 64 then if ltb i k then 0 else bit_at (i - k) x else 0)
bit_at-shl64 k i x = ground (arith, bit_at-mod-pow 64 i (x * 2 ^ k), bit_at-mul-pow k i x)

pub bit_or_comm : (a b : ℕ) → bit_or a b ≡ bit_or b a
bit_or_comm a b = same_bits _ _ λ i. omega (arith, bit_at-bit_or i a b, bit_at-bit_or i b a)

-- A number without its k low bits, and a field of w bits moved to bit o.
pub bit_at_high : (k i x : ℕ) → bit_at i (x / 2 ^ k * 2 ^ k) ≡ (if ltb i k then 0 else bit_at i x)
bit_at_high k i x = ground (arith, bit_at-mul-pow k i (x / 2 ^ k), bit_at-div-pow k (i - k) x)

pub bit_at_moved :
    (w o i x : ℕ)
    → bit_at i (x % 2 ^ w * 2 ^ o)
      ≡ (if ltb i o then 0 else if ltb (i - o) w then bit_at (i - o) x else 0)
bit_at_moved w o i x = ground (arith, bit_at-mul-pow o i (x % 2 ^ w), bit_at-mod-pow w (i - o) x)
