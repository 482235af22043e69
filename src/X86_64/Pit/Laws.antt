-- ===== src/X86_64/Pit/Laws.antt =====
-- The frequency that the constructor of include/x86_64/pit.hpp sets.
use cpu_io.Base.{
  ℕ, refl, ◌+◌, ◌*◌, ◌/◌, ◌%◌, ◌^◌, ◌≤◌, ◌<◌, ◌≡◌, arith, some, bit_and, bit_and-ones, false, ◌==◌,
  zero, suc,
}
use native.Mathlib.Nat.{div-add-mod', mod-lt}
use cpu_io.X86_64.Bus.{Bus}
use cpu_io.X86_64.Pit.{Pit, make_pit, ticks, get_ticks}

-- What the documentation of the 8254 says: after the command for channel 0 with both bytes and mode
-- 3, two bytes to the channel's port, the low one first, set its reload value.
pub record Timer (D : Type 0) (bus : Bus D) : Type 0 where
  pub reload : D → ℕ
  pub load :
      (low high : ℕ) (d : D)
      → low < 256
      → high < 256
      → reload (bus.out_byte 0x40 high (bus.out_byte 0x40 low (bus.out_byte 0x43 0x36 d)))
        ≡ high * 256 + low

-- The quotient by a frequency of 19 or more fits in 16 bits, and bounds the clock on both sides.
quotient_bounds :
    (f : ℕ)
    → 19 ≤ f
    → (1193180 / f < 2 ^ 16) × (1193180 / f * f ≤ 1193180) × (1193180 < (1193180 / f + 1) * f)
quotient_bounds f le =
    let whole : 1193180 / f * f + 1193180 % f ≡ 1193180 = div-add-mod' 1193180 f in
    let rest : 1193180 % f < f = mod-lt 1193180 (omega arith) in
    (grind arith, grind arith, grind arith)

module _ {D : Type 0} ⦃bus : Bus D⦄ (timer : Timer D bus) where
  -- For a frequency from 1 on, the reload value is the low 16 bits of 1193180 divided by the
  -- frequency, and the tick count starts at 0.
  pub make_pit_lem :
      (frequency : ℕ) (d : D)
      → 0 < frequency
      → (d' : D) × (make_pit frequency d ≡ some (record { ticks_count = 0 }, d'))
        × (timer.reload d' ≡ 1193180 / frequency % 2 ^ 16)
  unfolding make_pit
  make_pit_lem frequency d pos =
      let n = 1193180 / frequency % 2 ^ 16 in
      let test : (frequency == 0) ≡ false = ground arith in
      let low : bit_and n 0xFF % 2 ^ 8 ≡ n % 256 = omega (arith, bit_and-ones 8 0 n) in
      let high : n / 2 ^ 8 % 2 ^ 8 ≡ n / 256 = omega arith in
      (
        bus.out_byte 0x40 (n / 256) (bus.out_byte 0x40 (n % 256) (bus.out_byte 0x43 0x36 d)),
        rw (test, low, high) refl,
        omega (arith, timer.load (n % 256) (n / 256) d (omega arith) (omega arith)),
      )

  -- For a frequency of 19 or more nothing is cut off: the timer's input clock of 1193180 Hz divided
  -- by the reload value is at least the frequency, and by the next value below it.
  pub frequency_reached :
      (frequency : ℕ) (d : D)
      → 19 ≤ frequency
      → frequency < 2 ^ 16
      → (d' : D) × (make_pit frequency d ≡ some (record { ticks_count = 0 }, d'))
        × (timer.reload d' * frequency ≤ 1193180)
        × (1193180 < (timer.reload d' + 1) * frequency)
  frequency_reached frequency d le lt =
      let made = make_pit_lem frequency d (omega arith) in
      let bounds = quotient_bounds frequency le in
      let exact : timer.reload made.0 ≡ 1193180 / frequency = omega (arith, made.2, bounds.0) in
      (made.0, made.1, rw exact bounds.1, rw exact bounds.2)

-- `Ticks` n times.
abbrev pub count_ticks : ℕ → Pit → Pit
count_ticks zero pit = pit
count_ticks (suc n) pit = ticks (count_ticks n pit)

-- After n interrupts the tick count is n more than before, wrapping at 2^64.
pub count_ticks_lem :
    (n : ℕ) (pit : Pit)
    → get_ticks pit < 2 ^ 64
    → get_ticks (count_ticks n pit) ≡ (get_ticks pit + n) % 2 ^ 64
unfolding get_ticks ticks
count_ticks_lem zero pit lt = omega arith
count_ticks_lem (suc n) pit lt = omega (arith, count_ticks_lem n pit lt)
