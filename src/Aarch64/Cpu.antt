-- ===== src/Aarch64/Cpu.antt =====
-- The functions of include/aarch64/cpu.hpp.
pub mod Laws
use cpu_io.Base.{ℕ, Bool, false, not, ◌!=◌, if◌then◌else◌}
use cpu_io.Aarch64.Machine.{
  daif, mpidr_el1, cpacr_el1, Stores, M, pure, ◌>>=◌, event, dmb_ish, dmb_ishld, dmb_ishst, yield,
}
use cpu_io.Aarch64.Info.{daif_i, daif_f, mpidr_el1_aff0, cpacr_el1_fpen}
use cpu_io.Aarch64.ReadWrite
use cpu_io.Aarch64.Field

unfoldable pub mb : M (Unit {0})
mb = event dmb_ish

unfoldable pub rmb : M (Unit {0})
rmb = event dmb_ishld

unfoldable pub wmb : M (Unit {0})
wmb = event dmb_ishst

-- `F` is read only where `I` is zero.
unfoldable pub get_interrupt_status : M Bool
get_interrupt_status = Field.get daif daif_i >>= λ irq.
    if irq != 0 then pure false else Field.get daif daif_f >>= λ fiq. pure (not (fiq != 0))

unfoldable pub get_current_core_id : M ℕ
get_current_core_id = Field.get mpidr_el1 mpidr_el1_aff0

unfoldable pub pause : M (Unit {0})
pause = event yield

module _ ⦃w : Stores⦄ where
  unfoldable pub enable_interrupt : M (Unit {0})
  enable_interrupt = ReadWrite.clear_bits_imm daif 0xF

  unfoldable pub disable_interrupt : M (Unit {0})
  disable_interrupt = ReadWrite.set_bits_imm daif 0xF

  unfoldable pub setup_fpu : M (Unit {0})
  setup_fpu = Field.set cpacr_el1 cpacr_el1_fpen
