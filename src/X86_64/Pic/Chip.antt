-- ===== src/X86_64/Pic/Chip.antt =====
-- What the documentation of the 8259A says of one controller behind its command and data port, as
-- laws on a view of the bus's state.
use cpu_io.Base.{ℕ, ◌-◌, ◌/◌, ◌*◌, ◌≡◌, ◌≢◌, ◌==◌, if◌then◌else◌, bit_and}
use cpu_io.X86_64.Bus.{Bus}

-- In 8086 mode the upper five bits of the second initialisation word are the vector of line 0,
-- whose lower three bits are zero.
--
-- How many initialisation words are awaited, the vector of line 0, the cascade word, the mask
-- register, the request and in-service registers and which of the two the command port reads.
pub record Chip : Type 0 where
  pub awaiting : ℕ
  pub vector : ℕ
  pub cascade : ℕ
  pub mask : ℕ
  pub requests : ℕ
  pub in_service : ℕ
  pub selected : ℕ

-- A non-specific end of interrupt clears the in-service bit of the highest priority, the lowest.
abbrev pub end_of_interrupt : Chip → Chip
end_of_interrupt c = record c { in_service = bit_and c.in_service (c.in_service - 1) }

pub record Controller (D : Type 0) (bus : Bus D) (command_port data_port : ℕ) : Type 0 where
  pub chip : D → Chip
  pub icw1 : (d : D) → (chip (bus.out_byte command_port 0x11 d)).awaiting ≡ 3
  pub icw2 :
      (v : ℕ) (d : D)
      → (chip d).awaiting ≡ 3
      → chip (bus.out_byte data_port v d) ≡ record (chip d) { awaiting = 2; vector = v / 8 * 8 }
  pub icw3 :
      (v : ℕ) (d : D)
      → (chip d).awaiting ≡ 2
      → chip (bus.out_byte data_port v d) ≡ record (chip d) { awaiting = 1; cascade = v }
  pub icw4 :
      (v : ℕ) (d : D)
      → (chip d).awaiting ≡ 1
      → chip (bus.out_byte data_port v d) ≡ record (chip d) { awaiting = 0 }
  pub ocw1 :
      (v : ℕ) (d : D)
      → (chip d).awaiting ≡ 0
      → chip (bus.out_byte data_port v d) ≡ record (chip d) { mask = v }
  pub eoi : (d : D) → chip (bus.out_byte command_port 0x20 d) ≡ end_of_interrupt (chip d)
  pub select_irr :
      (d : D) → chip (bus.out_byte command_port 0x0A d) ≡ record (chip d) { selected = 0x0A }
  pub select_isr :
      (d : D) → chip (bus.out_byte command_port 0x0B d) ≡ record (chip d) { selected = 0x0B }
  pub read_data : (d : D) → (chip d).awaiting ≡ 0 → bus.in_byte data_port d ≡ ((chip d).mask, d)
  pub read_command :
      (d : D)
      → bus.in_byte command_port d
        ≡ ((if (chip d).selected == 0x0A then (chip d).requests else (chip d).in_service), d)
  pub elsewhere :
      (port v : ℕ) (d : D)
      → port ≢ command_port
      → port ≢ data_port
      → chip (bus.out_byte port v d) ≡ chip d
