-- ===== src/X86_64/Bus.antt =====
-- The port instructions of include/x86_64/io.hpp for one byte, and `hlt`: what stands behind the
-- ports is a parameter, with a state of any type.
use cpu_io.Base.{ℕ, some, u8, u16}
pub use cpu_io.State.{undefined, pure, ◌>>=◌, ◌>>◌}
use cpu_io.State.{Run}

pub record Bus (D : Type 0) : Type 0 where
  pub in_byte : ℕ → D → ℕ × D
  pub out_byte : ℕ → ℕ → D → D
  pub halted : D → D

abbrev pub M : Type 0 → Type 0 → Type 0
M D A = Run D A

module _ {D : Type 0} ⦃bus : Bus D⦄ where
  -- `In<uint8_t>`: the port is a uint16_t and the result a byte.
  abbrev pub inb : ℕ → M D ℕ
  inb port d = some (u8 (bus.in_byte (u16 port) d).0, (bus.in_byte (u16 port) d).1)

  abbrev pub outb : ℕ → ℕ → M D (Unit {0})
  outb port byte d = some (tt, bus.out_byte (u16 port) (u8 byte) d)

  abbrev pub hlt : M D (Unit {0})
  hlt d = some (tt, bus.halted d)
