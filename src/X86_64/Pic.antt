-- ===== src/X86_64/Pic.antt =====
-- The class `Pic` of include/x86_64/pic.hpp: two cascaded 8259A interrupt controllers.
pub mod Chip
pub mod Init
pub mod Laws
pub mod Tests
pub mod Mask
pub mod Calls
use cpu_io.Base.{ℕ, ◌+◌, ◌*◌, ◌%◌, ◌^◌, leb, if◌then◌else◌, bit_and, bit_or, not64, u8, u16}
use cpu_io.X86_64.Bus.{Bus, M, pure, ◌>>=◌, ◌>>◌, inb, outb}

abbrev pub k_master : ℕ
k_master = 0x20

abbrev pub k_slave : ℕ
k_slave = 0xA0

abbrev pub k_master_command_port : ℕ
k_master_command_port = k_master

abbrev pub k_master_data_port : ℕ
k_master_data_port = k_master + 1

abbrev pub k_slave_command_port : ℕ
k_slave_command_port = k_slave

abbrev pub k_pic2_data_port : ℕ
k_pic2_data_port = k_slave + 1

abbrev pub k_eoi : ℕ
k_eoi = 0x20

abbrev pub k_icw1_icw4 : ℕ
k_icw1_icw4 = 0x01

abbrev pub k_icw1_init : ℕ
k_icw1_init = 0x10

abbrev pub k_ocw3_read_irr : ℕ
k_ocw3_read_irr = 0x0A

abbrev pub k_ocw3_read_isr : ℕ
k_ocw3_read_isr = 0x0B

abbrev pub k_icw4_8086 : ℕ
k_icw4_8086 = 0x01

pub record Pic : Type 0 where
  pub offset1 : ℕ
  pub offset2 : ℕ

module _ {D : Type 0} ⦃bus : Bus D⦄ where
  -- The constructor with two arguments.
  unfoldable pub make_pic : ℕ → ℕ → M D Pic
  make_pic offset1 offset2 = do
    outb k_master_command_port (bit_or k_icw1_init k_icw1_icw4)
    outb k_master_data_port offset1
    outb k_master_data_port 4
    outb k_master_data_port k_icw4_8086
    outb k_slave_command_port (bit_or k_icw1_init k_icw1_icw4)
    outb k_pic2_data_port offset2
    outb k_pic2_data_port 2
    outb k_pic2_data_port k_icw4_8086
    outb k_master_data_port 0xFF
    outb k_pic2_data_port 0xFF
    pure record { offset1 = offset1; offset2 = offset2 }

  unfoldable pub enable : Pic → ℕ → M D (Unit {0})
  enable pic irq =
      if leb pic.offset2 irq
      then (do
        old ← inb k_pic2_data_port
        outb k_pic2_data_port (u8 (bit_and old (not64 (2 ^ (irq % 8))))))
      else (do
        old ← inb k_master_data_port
        outb k_master_data_port (u8 (bit_and old (not64 (2 ^ (irq % 8))))))

  -- `Disable()`.
  unfoldable pub disable_all : M D (Unit {0})
  disable_all = do outb k_master_data_port 0xFF; outb k_pic2_data_port 0xFF

  unfoldable pub disable : Pic → ℕ → M D (Unit {0})
  disable pic irq =
      if leb pic.offset2 irq
      then (do old ← inb k_pic2_data_port; outb k_pic2_data_port (u8 (bit_or old (2 ^ (irq % 8)))))
      else (do
        old ← inb k_master_data_port
        outb k_master_data_port (u8 (bit_or old (2 ^ (irq % 8)))))

  unfoldable pub clear : Pic → ℕ → M D (Unit {0})
  clear pic irq =
      if leb pic.offset2 irq
      then outb k_slave_command_port k_eoi
      else outb k_master_command_port k_eoi

  -- The operands of `|` may be evaluated in either order; this is from left to right.
  unfoldable pub get_irq_reg : ℕ → M D ℕ
  get_irq_reg ocw3 = do
    outb k_master_command_port ocw3
    outb k_slave_command_port ocw3
    high ← inb k_slave_command_port
    low ← inb k_master_command_port
    pure (u16 (bit_or (high * 2 ^ 8) low))

  unfoldable pub get_irr : M D ℕ
  get_irr = get_irq_reg k_ocw3_read_irr

  unfoldable pub get_isr : M D ℕ
  get_isr = get_irq_reg k_ocw3_read_isr
