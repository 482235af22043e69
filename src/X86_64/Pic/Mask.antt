-- ===== src/X86_64/Pic/Mask.antt =====
-- The mask bytes of `Pic::Enable` and `Pic::Disable` in include/x86_64/pic.hpp.
use cpu_io.Base.{
  ℕ, ◌-◌, ◌^◌, ◌<◌, ◌≡◌, arith, bit_and, bit_or, not64, u8, same_bits, bit_at-mod-pow,
  bit_at-bit_and, bit_at-bit_or, bit_at-not64, bit_at_not, bit_at-eq-zero, bit_at, bit_at-ones,
  bit_at-le-one, ◌==◌, if◌then◌else◌,
}
use native.Mathlib.Nat.{pow-le-pow_right}

flag-lt : (k : ℕ) → k < 8 → 2 ^ k < 256
flag-lt k lt = omega (arith, pow-le-pow_right {n = 2} (omega arith) {i = k} {j = 7} (omega arith))

-- The mask bytes that `Enable` and `Disable` compute.
pub enabled_mask :
    (x k : ℕ) → x < 256 → k < 8 → u8 (u8 (bit_and (u8 x) (not64 (2 ^ k)))) ≡ bit_and x (255 - 2 ^ k)
enabled_mask x k lt lk = same_bits _ _ λ i. ground (
  arith,
  bit_at-mod-pow 8 i (u8 (bit_and (u8 x) (not64 (2 ^ k)))),
  bit_at-mod-pow 8 i (bit_and (u8 x) (not64 (2 ^ k))),
  bit_at-mod-pow 8 i x,
  bit_at-bit_and i (u8 x) (not64 (2 ^ k)),
  bit_at-not64 i (2 ^ k) (omega (arith, flag-lt k lk)),
  bit_at-bit_and i x (255 - 2 ^ k),
  bit_at_not 8 i (2 ^ k) (flag-lt k lk),
  bit_at-eq-zero 8 i x lt,
)

pub disabled_mask : (x k : ℕ) → x < 256 → k < 8 → u8 (u8 (bit_or (u8 x) (2 ^ k))) ≡ bit_or x (2 ^ k)
disabled_mask x k lt lk = same_bits _ _ λ i. ground (
  arith,
  bit_at-mod-pow 8 i (u8 (bit_or (u8 x) (2 ^ k))),
  bit_at-mod-pow 8 i (bit_or (u8 x) (2 ^ k)),
  bit_at-mod-pow 8 i x,
  bit_at-bit_or i (u8 x) (2 ^ k),
  bit_at-bit_or i x (2 ^ k),
  bit_at-eq-zero 8 i x lt,
  bit_at-eq-zero 8 i (2 ^ k) (flag-lt k lk),
)

-- The mask byte line by line.
pub switched_lines :
    (x k line : ℕ)
    → x < 256
    → k < 8
    → line < 8
    → (bit_at line (bit_and x (255 - 2 ^ k)) ≡ (if line == k then 0 else bit_at line x))
      × (bit_at line (bit_or x (2 ^ k)) ≡ (if line == k then 1 else bit_at line x))
switched_lines x k line lt lk ll =
    let one : bit_at line (2 ^ k) ≡ (if line == k then 1 else 0) =
      ground (arith, bit_at-ones 1 k line) in
    (
      ground (
        arith,
        bit_at-bit_and line x (255 - 2 ^ k),
        bit_at_not 8 line (2 ^ k) (flag-lt k lk),
        one,
        bit_at-le-one line x,
      ),
      ground (arith, bit_at-bit_or line x (2 ^ k), one, bit_at-le-one line x),
    )

pub mask_bytes :
    (x k : ℕ) → x < 256 → k < 8 → (bit_and x (255 - 2 ^ k) < 256) × (bit_or x (2 ^ k) < 256)
mask_bytes x k lt lk =
    (omega (arith, enabled_mask x k lt lk), omega (arith, disabled_mask x k lt lk))
