-- ===== src/Riscv64/Hart.antt =====
-- The hart that the inline assembly of include/riscv64 acts on: registers, the fences executed,
-- and the instructions as actions. An action is `none` where the code does not compile: a
-- `static_assert(sizeof(RegInfo) == 0)`, an immediate that does not fit, or a missing member.
use cpu_io.Base.{ℕ, some, List, ◌++◌, [], ◌∷◌, ltb, ◌==◌, if◌then◌else◌, bit_and, bit_or, not64}
pub use cpu_io.State.{not_compiled, undefined, pure, ◌>>=◌, ◌>>◌}
use cpu_io.State.{Run}

pub data Reg : Type 0 where
  fp tp sstatus stvec sip sie time cycle instret sscratch sepc scause stval satp stimecmp : Reg

abbrev pub index : Reg → ℕ
index fp = 0
index tp = 1
index sstatus = 2
index stvec = 3
index sip = 4
index sie = 5
index time = 6
index cycle = 7
index instret = 8
index sscratch = 9
index sepc = 10
index scause = 11
index stval = 12
index satp = 13
index stimecmp = 14

-- `sfence.vma address, zero` and `sfence.vma zero, zero`, the memory fences and `pause`.
pub data Fence : Type 0 where
  sfence_vma : ℕ → Fence
  sfence_vma_all : Fence
  fence_iorw fence_ir fence_ow pause : Fence

pub record Hart : Type 0 where
  pub reg : Reg → ℕ
  pub fences : List Fence

abbrev pub update : (Reg → ℕ) → Reg → ℕ → Reg → ℕ
update regs written v r = if index written == index r then v else regs r

-- What the hardware stores when a value is written over an old one: implementations legalise the
-- values of CSRs, so this is a parameter of everything that writes.
pub record Csrs : Type 0 where
  pub legal : Reg → ℕ → ℕ → ℕ

abbrev pub M : Type 0 → Type 0
M A = Run Hart A

-- `mv %0, r` and `mv r, %0`.
abbrev pub mv_from : Reg → M ℕ
mv_from r h = some (h.reg r, h)

abbrev pub mv_to : Reg → ℕ → M (Unit {0})
mv_to r v h = some (tt, record h { reg = update h.reg r v })

abbrev pub csrr : Reg → M ℕ
csrr r h = some (h.reg r, h)

abbrev pub fence : Fence → M (Unit {0})
fence f h = some (tt, record h { fences = h.fences ++ f ∷ [] })

-- The assembler takes five bits of immediate.
abbrev pub imm : {A : Type 0} → ℕ → M A → M A
imm v m = if ltb v 32 then m else not_compiled

module _ ⦃c : Csrs⦄ where
  abbrev pub put : Reg → ℕ → Hart → Hart
  put r v h = record h { reg = update h.reg r (c.legal r (h.reg r) v) }

  -- The CSR instructions that return the old value; `zero` as destination drops it.
  abbrev pub csrrw : Reg → ℕ → M ℕ
  csrrw r v h = some (h.reg r, put r v h)

  abbrev pub csrrs : Reg → ℕ → M ℕ
  csrrs r mask h = some (h.reg r, put r (bit_or (h.reg r) mask) h)

  abbrev pub csrrc : Reg → ℕ → M ℕ
  csrrc r mask h = some (h.reg r, put r (bit_and (h.reg r) (not64 mask)) h)

  abbrev pub csrw : Reg → ℕ → M (Unit {0})
  csrw r v = csrrw r v >>= λ _. pure tt

  abbrev pub csrs : Reg → ℕ → M (Unit {0})
  csrs r mask = csrrs r mask >>= λ _. pure tt

  abbrev pub csrc : Reg → ℕ → M (Unit {0})
  csrc r mask = csrrc r mask >>= λ _. pure tt

  -- With an immediate of 0 the set and clear forms do not write.
  abbrev pub csrrsi : Reg → ℕ → M ℕ
  csrrsi r mask = if mask == 0 then csrr r else csrrs r mask

  abbrev pub csrrci : Reg → ℕ → M ℕ
  csrrci r mask = if mask == 0 then csrr r else csrrc r mask

  abbrev pub csrsi : Reg → ℕ → M (Unit {0})
  csrsi r mask = csrrsi r mask >>= λ _. pure tt

  abbrev pub csrci : Reg → ℕ → M (Unit {0})
  csrci r mask = csrrci r mask >>= λ _. pure tt
