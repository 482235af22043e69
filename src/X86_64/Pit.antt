-- ===== src/X86_64/Pit.antt =====
-- The class `Pit` of include/x86_64/pit.hpp: channel 0 of an 8254 timer.
pub mod Laws
pub mod Tests
use cpu_io.Base.{ℕ, ◌/◌, ◌^◌, add64, ◌==◌, if◌then◌else◌, bit_and, bit_or, u8, u16}
use cpu_io.X86_64.Bus.{Bus, M, undefined, pure, ◌>>=◌, ◌>>◌, outb}

abbrev pub k_max_frequency : ℕ
k_max_frequency = 1193180

abbrev pub k_channel0_data : ℕ
k_channel0_data = 0x40

abbrev pub k_command : ℕ
k_command = 0x43

abbrev pub k_channel0 : ℕ
k_channel0 = 0x0

abbrev pub k_high_and_low : ℕ
k_high_and_low = 0x30

abbrev pub k_square_wave_generator : ℕ
k_square_wave_generator = 0x6

pub record Pit : Type 0 where
  pub ticks_count : ℕ

-- The constructor with a frequency, a uint16_t; the division by 0 is undefined.
module _ {D : Type 0} ⦃bus : Bus D⦄ where
  unfoldable pub make_pit : ℕ → M D Pit
  make_pit frequency =
      if frequency == 0
      then undefined
      else let divisor = u16 (k_max_frequency / frequency) in
        do
          outb k_command (u8 (bit_or (bit_or k_channel0 k_high_and_low) k_square_wave_generator))
          outb k_channel0_data (bit_and divisor 0xFF)
          outb k_channel0_data (divisor / 2 ^ 8)
          pure record { ticks_count = 0 }

unfoldable pub ticks : Pit → Pit
ticks pit = record pit { ticks_count = add64 pit.ticks_count 1 }

unfoldable pub get_ticks : Pit → ℕ
get_ticks pit = pit.ticks_count
