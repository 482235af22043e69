-- ===== src/Riscv64/Calls.antt =====
-- Sequences of calls of include/riscv64/cpu.hpp, include/riscv64/virtual_memory.hpp and of
-- Stvec::SetDirect, and what they mean: whether paging is on, the page directory, whether interrupts
-- are taken, the trap vector, and the TLB fences executed.
pub mod Refinement
use cpu_io.Base.{
  ℕ, ◌+◌, ◌*◌, ◌/◌, ◌%◌, ◌^◌, ◌≤◌, ◌<◌, ◌≡◌, ◌⊎◌, ◌++◌, Bool, true, false, ◌==◌, List, [], ◌∷◌,
  if◌then◌else◌,
}
use cpu_io.Riscv64.Hart.{
  satp, sstatus, stvec, Fence, sfence_vma, sfence_vma_all, Csrs, Hart, M, pure, ◌>>=◌, ◌>>◌,
}
use cpu_io.Riscv64.Cpu.{set_direct, enable_interrupt, disable_interrupt}
use cpu_io.Riscv64.Cpu.Laws.{TogglesSie}
use cpu_io.Riscv64.Paging.{
  enable_page, disable_page, set_page_directory, flush_tlb_address, flush_tlb_all,
}
use cpu_io.Riscv64.Paging.Satp.{HasSv39}

pub data Call : Type 0 where
  enabling disabling allowing forbidding flushing : Call
  flushing_address directing vectoring : ℕ → Call

pub record Meaning : Type 0 where
  pub paging : Bool
  pub directory : ℕ
  pub interrupts : Bool
  pub vector : ℕ
  pub fenced : List Fence

-- A directory is the start of its page; a vector that is not 4-byte aligned is rejected.
unfoldable pub meant : Call → Meaning → Meaning
meant enabling m = record m { paging = true }
meant disabling m = record m { paging = false }
meant allowing m = record m { interrupts = true }
meant forbidding m = record m { interrupts = false }
meant (directing pgd) m = record m { directory = pgd / 4096 * 4096 }
meant (vectoring addr) m = if addr % 4 == 0 then record m { vector = addr } else m
meant flushing m = record m { fenced = m.fenced ++ sfence_vma_all ∷ [] }
meant (flushing_address virtual_addr) m = record m {
  fenced = m.fenced ++ sfence_vma virtual_addr ∷ [];
}

unfoldable pub replay : List Call → Meaning → Meaning
replay [] m = m
replay (call ∷ calls) m = replay calls (meant call m)

-- When a call may be made: a directory is in a page of the hart; while paging is off the other
-- fields of satp have to be zero, so that a directory is set, and kept, only while it is on; and
-- vectors are 64-bit words.
abbrev pub Fits : ℕ → Call → Meaning → Type 0
Fits pages disabling m = m.directory ≡ 0
Fits pages (directing pgd) m = (pgd / 4096 < pages) × ((m.paging ≡ true) ⊎ (pgd / 4096 ≡ 0))
Fits pages (vectoring addr) m = addr < 2 ^ 64
Fits pages _ m = Unit {0}

abbrev pub Fitting : ℕ → List Call → Meaning → Type 0
Fitting pages [] m = Unit {0}
Fitting pages (call ∷ calls) m = Fits pages call m × Fitting pages calls (meant call m)

-- What a hart with page tables in the pages below a number represents.
pub record Represents (pages : ℕ) (h : Hart) (m : Meaning) : Type 0 where
  pub mode : h.reg satp / 2 ^ 60 ≡ (if m.paging then 8 else 0)
  pub asid : h.reg satp / 2 ^ 44 % 2 ^ 16 ≡ 0
  pub page : h.reg satp % 2 ^ 44 * 2 ^ 12 ≡ m.directory
  pub table : h.reg satp % 2 ^ 44 < pages
  pub bare : (m.paging ≡ true) ⊎ (m.directory ≡ 0)
  pub status_word : h.reg sstatus < 2 ^ 64
  pub taken : (h.reg sstatus / 2 % 2 == 1) ≡ m.interrupts
  pub trap : h.reg stvec ≡ m.vector
  pub trap_word : h.reg stvec < 2 ^ 64
  pub trap_mode : h.reg stvec % 4 ≤ 1
  pub fences : h.fences ≡ m.fenced

module _ ⦃c : Csrs⦄ where
  unfoldable pub perform : Call → M (Unit {0})
  perform enabling = enable_page
  perform disabling = disable_page
  perform allowing = enable_interrupt
  perform forbidding = disable_interrupt
  perform flushing = flush_tlb_all
  perform (flushing_address virtual_addr) = flush_tlb_address virtual_addr 0
  perform (directing pgd) = set_page_directory pgd
  perform (vectoring addr) = set_direct addr >>= λ accepted. pure tt

  unfoldable pub run : List Call → M (Unit {0})
  run [] = pure tt
  run (call ∷ calls) = perform call >> run calls

  -- The hart has Sv39 with page tables in some pages, a writable SIE bit, and stores every vector of mode Direct or Vectored.
  pub record Supports : Type 0 where
    pub pages : ℕ
    pub sv39 : HasSv39 pages
    pub sie : TogglesSie
    pub vectors : (o v : ℕ) → v % 4 ≤ 1 → c.legal stvec o v ≡ v
