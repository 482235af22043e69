-- ===== src/X86_64/Io.antt =====
-- `In` and `Out` of include/x86_64/io.hpp, over the `in` and `out` instructions of each width, and
-- the byte instructions among them as the bus that the devices stand behind.
use cpu_io.Base.{ℕ, ◌≡◌, refl, some, u8, u16, u32}
use cpu_io.State.{not_compiled}
use cpu_io.X86_64.Bus.{Bus, M, inb, outb}

-- The template's argument; any other type fails its `static_assert`.
pub data PortType : Type 0 where
  uint8 uint16 uint32 other : PortType

-- The instructions by their width in bits.
pub record Ports (D : Type 0) : Type 0 where
  pub in_data : ℕ → ℕ → D → ℕ × D
  pub out_data : ℕ → ℕ → ℕ → D → D
  pub halted : D → D

module _ {D : Type 0} (ports : Ports D) where
  unfoldable pub input : PortType → ℕ → M D ℕ
  input uint8 port d = some (u8 (ports.in_data 8 (u16 port) d).0, (ports.in_data 8 (u16 port) d).1)
  input uint16 port d =
      some (u16 (ports.in_data 16 (u16 port) d).0, (ports.in_data 16 (u16 port) d).1)
  input uint32 port d =
      some (u32 (ports.in_data 32 (u16 port) d).0, (ports.in_data 32 (u16 port) d).1)
  input other port d = not_compiled d

  unfoldable pub output : PortType → ℕ → ℕ → M D (Unit {0})
  output uint8 port value d = some (tt, ports.out_data 8 (u16 port) (u8 value) d)
  output uint16 port value d = some (tt, ports.out_data 16 (u16 port) (u16 value) d)
  output uint32 port value d = some (tt, ports.out_data 32 (u16 port) (u32 value) d)
  output other port value d = not_compiled d

  -- The byte instructions.
  abbrev pub byte_bus : Bus D
  byte_bus = record {
    in_byte = λ port d. ports.in_data 8 port d;
    out_byte = λ port value d. ports.out_data 8 port value d;
    halted = ports.halted;
  }

  -- What the devices do by bytes is what `In<uint8_t>` and `Out<uint8_t>` do.
  byte_ports :
      (port byte : ℕ) (d : D)
      → (input uint8 port d ≡ inb {D = D} ⦃bus = byte_bus⦄ port d)
        × (output uint8 port byte d ≡ outb {D = D} ⦃bus = byte_bus⦄ port byte d)
  unfolding input output
  byte_ports port byte d = (refl, refl)
