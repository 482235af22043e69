-- ===== src/X86_64/Cpu.antt =====
-- The functions of include/x86_64/cpu.hpp; the core id stands with the CPUID functions.
pub mod Laws
use cpu_io.Base.{ℕ, Bool, ◌!=◌}
use cpu_io.X86_64.Machine.{rflags, Stores, M, pure, ◌>>=◌, event, mfence, lfence, sfence}
use cpu_io.X86_64.Machine
use cpu_io.X86_64.Info.{rflags_if}
use cpu_io.X86_64.Field

unfoldable pub mb : M (Unit {0})
mb = event mfence

unfoldable pub rmb : M (Unit {0})
rmb = event lfence

unfoldable pub wmb : M (Unit {0})
wmb = event sfence

unfoldable pub get_interrupt_status : M Bool
get_interrupt_status = do flag ← Field.get rflags rflags_if; pure (flag != 0)

unfoldable pub pause : M (Unit {0})
pause = event Machine.pause

module _ ⦃w : Stores⦄ where
  unfoldable pub enable_interrupt : M (Unit {0})
  enable_interrupt = Field.set rflags rflags_if

  unfoldable pub disable_interrupt : M (Unit {0})
  disable_interrupt = Field.clear rflags rflags_if
