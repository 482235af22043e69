-- ===== src/X86_64/Apic.antt =====
-- include/x86_64/apic.hpp, with the registers and masks of include/x86_64/msr.h.
pub mod Laws
pub mod Modes
pub mod Registers
use cpu_io.Base.{ℕ, Bool, ◌!=◌, bit_and, bit_or, shl64, not64, u32}
use cpu_io.X86_64.Machine.{Stores, M, pure, ◌>>=◌}
use cpu_io.X86_64.ReadWrite.{read_msr, write_msr}

abbrev pub k_ia32_apic_base : ℕ
k_ia32_apic_base = 0x0000001B

abbrev pub k_base : ℕ
k_base = k_ia32_apic_base

abbrev pub k_id : ℕ
k_id = 0x802

abbrev pub k_version : ℕ
k_version = 0x803

abbrev pub k_tpr : ℕ
k_tpr = 0x808

abbrev pub k_eoi : ℕ
k_eoi = 0x80B

abbrev pub k_sivr : ℕ
k_sivr = 0x80F

abbrev pub k_icr : ℕ
k_icr = 0x830

abbrev pub k_lvt_timer : ℕ
k_lvt_timer = 0x832

abbrev pub k_lvt_lint0 : ℕ
k_lvt_lint0 = 0x835

abbrev pub k_lvt_lint1 : ℕ
k_lvt_lint1 = 0x836

abbrev pub k_lvt_error : ℕ
k_lvt_error = 0x837

abbrev pub k_timer_init_count : ℕ
k_timer_init_count = 0x838

abbrev pub k_timer_curr_count : ℕ
k_timer_curr_count = 0x839

abbrev pub k_timer_divide : ℕ
k_timer_divide = 0x83E

abbrev pub k_bsp_bit : ℕ
k_bsp_bit = shl64 1 8

abbrev pub k_global_enable_bit : ℕ
k_global_enable_bit = shl64 1 11

abbrev pub k_x2_apic_enable_bit : ℕ
k_x2_apic_enable_bit = shl64 1 10

abbrev pub k_base_mask : ℕ
k_base_mask = 0xFFFFF000

unfoldable pub read_base : M ℕ
read_base = read_msr k_base

unfoldable pub is_bsp : M Bool
is_bsp = do value ← read_base; pure (bit_and value k_bsp_bit != 0)

unfoldable pub is_globally_enabled : M Bool
is_globally_enabled = do value ← read_base; pure (bit_and value k_global_enable_bit != 0)

unfoldable pub is_x2_apic_enabled : M Bool
is_x2_apic_enabled = do value ← read_base; pure (bit_and value k_x2_apic_enable_bit != 0)

unfoldable pub get_base_address : M ℕ
get_base_address = do value ← read_base; pure (bit_and value k_base_mask)

unfoldable pub read_id : M ℕ
read_id = do value ← read_msr k_id; pure (u32 value)

unfoldable pub read_version : M ℕ
read_version = do value ← read_msr k_version; pure (u32 value)

unfoldable pub read_timer_curr_count : M ℕ
read_timer_curr_count = do value ← read_msr k_timer_curr_count; pure (u32 value)

unfoldable pub read_tpr : M ℕ
read_tpr = do value ← read_msr k_tpr; pure (u32 value)

unfoldable pub read_sivr : M ℕ
read_sivr = do value ← read_msr k_sivr; pure (u32 value)

unfoldable pub read_lvt_timer : M ℕ
read_lvt_timer = do value ← read_msr k_lvt_timer; pure (u32 value)

unfoldable pub read_lvt_lint0 : M ℕ
read_lvt_lint0 = do value ← read_msr k_lvt_lint0; pure (u32 value)

unfoldable pub read_lvt_lint1 : M ℕ
read_lvt_lint1 = do value ← read_msr k_lvt_lint1; pure (u32 value)

unfoldable pub read_lvt_error : M ℕ
read_lvt_error = do value ← read_msr k_lvt_error; pure (u32 value)

unfoldable pub read_timer_init_count : M ℕ
read_timer_init_count = do value ← read_msr k_timer_init_count; pure (u32 value)

unfoldable pub read_timer_divide : M ℕ
read_timer_divide = do value ← read_msr k_timer_divide; pure (u32 value)

unfoldable pub read_icr : M ℕ
read_icr = read_msr k_icr

module _ ⦃w : Stores⦄ where
  unfoldable pub write_base : ℕ → M (Unit {0})
  write_base value = write_msr k_ia32_apic_base value

  unfoldable pub enable_globally : M (Unit {0})
  enable_globally = do value ← read_base; write_base (bit_or value k_global_enable_bit)

  unfoldable pub disable_globally : M (Unit {0})
  disable_globally = do value ← read_base; write_base (bit_and value (not64 k_global_enable_bit))

  unfoldable pub enable_x2_apic : M (Unit {0})
  enable_x2_apic = do
    value ← read_base
    write_base (bit_or value (bit_or k_x2_apic_enable_bit k_global_enable_bit))

  unfoldable pub disable_x2_apic : M (Unit {0})
  disable_x2_apic = do value ← read_base; write_base (bit_and value (not64 k_x2_apic_enable_bit))

  unfoldable pub write_eoi : ℕ → M (Unit {0})
  write_eoi value = write_msr k_eoi (u32 value)

  unfoldable pub write_icr : ℕ → M (Unit {0})
  write_icr value = write_msr k_icr value

  unfoldable pub write_tpr : ℕ → M (Unit {0})
  write_tpr value = write_msr k_tpr (u32 value)

  unfoldable pub write_sivr : ℕ → M (Unit {0})
  write_sivr value = write_msr k_sivr (u32 value)

  unfoldable pub write_lvt_timer : ℕ → M (Unit {0})
  write_lvt_timer value = write_msr k_lvt_timer (u32 value)

  unfoldable pub write_lvt_lint0 : ℕ → M (Unit {0})
  write_lvt_lint0 value = write_msr k_lvt_lint0 (u32 value)

  unfoldable pub write_lvt_lint1 : ℕ → M (Unit {0})
  write_lvt_lint1 value = write_msr k_lvt_lint1 (u32 value)

  unfoldable pub write_lvt_error : ℕ → M (Unit {0})
  write_lvt_error value = write_msr k_lvt_error (u32 value)

  unfoldable pub write_timer_init_count : ℕ → M (Unit {0})
  write_timer_init_count value = write_msr k_timer_init_count (u32 value)

  unfoldable pub write_timer_divide : ℕ → M (Unit {0})
  write_timer_divide value = write_msr k_timer_divide (u32 value)
