-- ===== src/X86_64/Calls.antt =====
-- Sequences of calls of include/x86_64/cpu.hpp and include/x86_64/virtual_memory.hpp, and what they
-- mean: the page directory, whether interrupts are taken, and the barriers, pauses and TLB
-- invalidations executed, of which a write of CR3 is one.
pub mod Refinement
use cpu_io.Base.{ℕ, ◌*◌, ◌/◌, ◌%◌, ◌^◌, ◌<◌, ◌≡◌, Bool, true, false, ◌!=◌, List, [], ◌∷◌, ◌++◌}
use cpu_io.X86_64.Machine.{
  cr3, rflags, Event, mfence, lfence, sfence, invlpg, load_cr3, Stores, Cpu, M, pure, ◌>>=◌, ◌>>◌,
}
use cpu_io.X86_64.Machine
use cpu_io.X86_64.Cpu.{enable_interrupt, disable_interrupt, mb, rmb, wmb, pause}
use cpu_io.X86_64.Cpu.Laws.{TogglesIf}
use cpu_io.X86_64.Paging.{
  enable_page, disable_page, set_page_directory, flush_tlb_address, flush_tlb_all,
}

pub data Call : Type 0 where
  paging unpaging allowing forbidding flushing : Call
  all_barrier read_barrier write_barrier pausing : Call
  directing : ℕ → Call
  flushing_address : ℕ → ℕ → Call

pub record Meaning : Type 0 where
  pub directory : ℕ
  pub interrupts : Bool
  pub executed : List Event

abbrev executing : Event → Meaning → Meaning
executing e m = record m { executed = m.executed ++ e ∷ [] }

-- A directory is the start of its page; paging is on in 64-bit mode whatever is called.
unfoldable pub meant : Call → Meaning → Meaning
meant (directing pgd) m = executing load_cr3 (record m { directory = pgd / 4096 * 4096 })
meant flushing m = executing load_cr3 m
meant allowing m = record m { interrupts = true }
meant forbidding m = record m { interrupts = false }
meant (flushing_address virtual_addr asid) m = executing (invlpg virtual_addr) m
meant all_barrier m = executing mfence m
meant read_barrier m = executing lfence m
meant write_barrier m = executing sfence m
meant pausing m = executing Machine.pause m
meant _ m = m

unfoldable pub replay : List Call → Meaning → Meaning
replay [] m = m
replay (call ∷ calls) m = replay calls (meant call m)

-- Directories are physical addresses of the architecture.
abbrev pub Fits : Call → Type 0
Fits (directing pgd) = pgd < 2 ^ 52
Fits _ = Unit {0}

abbrev pub Fitting : List Call → Type 0
Fitting [] = Unit {0}
Fitting (call ∷ calls) = Fits call × Fitting calls

pub record Represents (c : Cpu) (m : Meaning) : Type 0 where
  pub page : c.reg cr3 / 4096 * 4096 ≡ m.directory
  pub directory_word : c.reg cr3 < 2 ^ 52
  pub taken : (c.reg rflags / 512 % 2 != 0) ≡ m.interrupts
  pub status_word : c.reg rflags < 2 ^ 64
  pub events : c.events ≡ m.executed

module _ ⦃w : Stores⦄ where
  unfoldable pub perform : Call → M (Unit {0})
  perform paging = enable_page
  perform unpaging = disable_page
  perform allowing = enable_interrupt
  perform forbidding = disable_interrupt
  perform flushing = flush_tlb_all
  perform all_barrier = mb
  perform read_barrier = rmb
  perform write_barrier = wmb
  perform pausing = pause
  perform (directing pgd) = set_page_directory pgd
  perform (flushing_address virtual_addr asid) = flush_tlb_address virtual_addr asid

  unfoldable pub run : List Call → M (Unit {0})
  run [] = pure tt
  run (call ∷ calls) = perform call >> run calls

  -- The processor stores the interrupt flag, and in CR3 every address with the low bits kept.
  pub record Supports : Type 0 where
    pub interrupt_flag : TogglesIf
    pub directories : (o v : ℕ) → v < 2 ^ 52 → o % 4096 ≡ v % 4096 → w.reg_value cr3 o v ≡ v
