-- ===== src/Riscv64/Cpu.antt =====
-- `Stvec::SetDirect` of include/riscv64/regs.hpp and the functions of include/riscv64/cpu.hpp.
pub mod Laws
use cpu_io.Base.{ℕ, Bool, true, false, ◌!=◌, if◌then◌else◌, bit_and}
use cpu_io.Riscv64.Hart.{
  tp, sstatus, stvec, Csrs, M, pure, ◌>>=◌, ◌>>◌, fence, fence_iorw, fence_ir, fence_ow,
}
use cpu_io.Riscv64.Hart
use cpu_io.Riscv64.ReadWrite.{read}
use cpu_io.Riscv64.Field
use cpu_io.Riscv64.Info.{stvec_base, stvec_mode, stvec_direct, sstatus_sie}

unfoldable pub mb : M (Unit {0})
mb = fence fence_iorw

unfoldable pub rmb : M (Unit {0})
rmb = fence fence_ir

unfoldable pub wmb : M (Unit {0})
wmb = fence fence_ow

unfoldable pub get_interrupt_status : M Bool
get_interrupt_status = do sie ← Field.get sstatus sstatus_sie; pure (sie != 0)

unfoldable pub get_current_core_id : M ℕ
get_current_core_id = read tp

unfoldable pub pause : M (Unit {0})
pause = fence Hart.pause

module _ ⦃c : Csrs⦄ where
  unfoldable pub set_direct : ℕ → M Bool
  set_direct addr = if bit_and addr 0x3 != 0 then pure false else do
    Field.write stvec stvec_base addr
    Field.write stvec stvec_mode stvec_direct
    pure true

  unfoldable pub enable_interrupt : M (Unit {0})
  enable_interrupt = Field.set sstatus sstatus_sie

  unfoldable pub disable_interrupt : M (Unit {0})
  disable_interrupt = Field.clear sstatus sstatus_sie
