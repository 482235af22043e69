-- ===== src/Aarch64/Machine.antt =====
-- The processor that the inline assembly of include/aarch64 acts on: registers, the barriers and
-- maintenance instructions executed, and the instructions as actions.
pub mod Events
use cpu_io.Base.{
  ℕ, ◌*◌, ◌^◌, some, List, ◌++◌, ◌∷◌, [], ltb, ◌==◌, if◌then◌else◌, bit_and, bit_or, not64,
}
pub use cpu_io.State.{not_compiled, undefined, pure, ◌>>=◌, ◌>>◌}
use cpu_io.State.{Run}

pub data Reg : Type 0 where
  x0 x29 cpacr_el1 current_el spsel daif vbar_el1 elr_el1 : Reg
  spsr_el1 sp_el0 sp_el1 mpidr_el1 sctlr_el1 mair_el1 tcr_el1 ttbr0_el1 : Reg
  ttbr1_el1 esr_el1 far_el1 cntv_ctl_el0 cntv_tval_el0 cntvct_el0 cntfrq_el0 icc_pmr_el1 : Reg
  icc_igrpen1_el1 icc_sre_el1 icc_iar1_el1 icc_eoir1_el1 icc_sgi1r_el1 : Reg

abbrev pub index : Reg → ℕ
index x0 = 0
index x29 = 1
index cpacr_el1 = 2
index current_el = 3
index spsel = 4
index daif = 5
index vbar_el1 = 6
index elr_el1 = 7
index spsr_el1 = 8
index sp_el0 = 9
index sp_el1 = 10
index mpidr_el1 = 11
index sctlr_el1 = 12
index mair_el1 = 13
index tcr_el1 = 14
index ttbr0_el1 = 15
index ttbr1_el1 = 16
index esr_el1 = 17
index far_el1 = 18
index cntv_ctl_el0 = 19
index cntv_tval_el0 = 20
index cntvct_el0 = 21
index cntfrq_el0 = 22
index icc_pmr_el1 = 23
index icc_igrpen1_el1 = 24
index icc_sre_el1 = 25
index icc_iar1_el1 = 26
index icc_eoir1_el1 = 27
index icc_sgi1r_el1 = 28

-- The barriers, the TLB maintenance of one page, given by its number, or of all, and `yield`.
pub data Event : Type 0 where
  isb dsb_sy dmb_ish dmb_ishld dmb_ishst tlbi_vmalle1 tlbi_vmalle1is yield : Event
  tlbi_vae1is : ℕ → Event

pub record Core : Type 0 where
  pub reg : Reg → ℕ
  pub events : List Event

abbrev pub M : Type 0 → Type 0
M A = Run Core A

abbrev pub update : (Reg → ℕ) → Reg → ℕ → Reg → ℕ
update regs written v r = if index written == index r then v else regs r

-- What the core stores when a value is written to a register over an old one.
pub record Stores : Type 0 where
  pub value : Reg → ℕ → ℕ → ℕ

abbrev pub event : Event → M (Unit {0})
event e c = some (tt, record c { events = c.events ++ e ∷ [] })

-- `mov %0, x0` and the like, and `mrs`.
abbrev pub mrs : Reg → M ℕ
mrs r c = some (c.reg r, c)

-- The assembler takes four bits of immediate.
abbrev pub imm4 : {A : Type 0} → ℕ → M A → M A
imm4 v m = if ltb v 16 then m else not_compiled

module _ ⦃w : Stores⦄ where
  abbrev pub put : Reg → ℕ → Core → Core
  put r v c = record c { reg = update c.reg r (w.value r (c.reg r) v) }

  abbrev pub msr : Reg → ℕ → M (Unit {0})
  msr r v c = some (tt, put r v c)

  -- `msr DAIFSet` and `msr DAIFClr`: bit i of the immediate is bit 6 + i of DAIF.
  abbrev pub daif_set : ℕ → M (Unit {0})
  daif_set v c = some (tt, put daif (bit_or (c.reg daif) (v * 2 ^ 6)) c)

  abbrev pub daif_clr : ℕ → M (Unit {0})
  daif_clr v c = some (tt, put daif (bit_and (c.reg daif) (not64 (v * 2 ^ 6))) c)
