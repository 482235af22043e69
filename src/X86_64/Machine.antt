-- ===== src/X86_64/Machine.antt =====
-- The processor that the inline assembly of include/x86_64 acts on: registers, model-specific
-- registers, and the other instructions executed, with each instruction as an action.
use cpu_io.Base.{
  ℕ, ◌+◌, ◌*◌, ◌/◌, ◌%◌, ◌^◌, some, List, ◌++◌, ◌∷◌, [], ◌==◌, if◌then◌else◌, bit_and, bit_or,
  not64,
}
pub use cpu_io.State.{not_compiled, undefined, pure, ◌>>=◌, ◌>>◌}
use cpu_io.State.{Run}

pub data Reg : Type 0 where
  rbp rflags gdtr ldtr idtr tr cr0 cr2 cr3 cr4 cr8 xcr0 cs ss ds es fs gs : Reg

abbrev pub index : Reg → ℕ
index rbp = 0
index rflags = 1
index gdtr = 2
index ldtr = 3
index idtr = 4
index tr = 5
index cr0 = 6
index cr2 = 7
index cr3 = 8
index cr4 = 9
index cr8 = 10
index xcr0 = 11
index cs = 12
index ss = 13
index ds = 14
index es = 15
index fs = 16
index gs = 17

-- The fences, `pause` and `invlpg`; a write of CR3, which invalidates the TLB; and the far return
-- that loads CS, which leaves the stack pointer six bytes above where it was, since the selector is
-- pushed as two bytes and popped as eight.
pub data Event : Type 0 where
  mfence lfence sfence pause load_cr3 far_return : Event
  invlpg : ℕ → Event

-- The descriptor table registers hold their memory image: the limit in the low 16 bits, the base
-- above it.
pub record Cpu : Type 0 where
  pub reg : Reg → ℕ
  pub msr : ℕ → ℕ
  pub events : List Event

abbrev pub M : Type 0 → Type 0
M A = Run Cpu A

abbrev pub update : (Reg → ℕ) → Reg → ℕ → Reg → ℕ
update regs written v r = if index written == index r then v else regs r

abbrev pub update_msr : (ℕ → ℕ) → ℕ → ℕ → ℕ → ℕ
update_msr msrs written v n = if written == n then v else msrs n

-- What the processor stores when a value is written over an old one.
pub record Stores : Type 0 where
  pub reg_value : Reg → ℕ → ℕ → ℕ
  pub msr_value : ℕ → ℕ → ℕ → ℕ

-- What a write of a register leaves besides the value.
abbrev pub traced : Reg → List Event → List Event
traced cr3 l = l ++ load_cr3 ∷ []
traced cs l = l ++ far_return ∷ []
traced _ l = l

abbrev pub event : Event → M (Unit {0})
event e c = some (tt, record c { events = c.events ++ e ∷ [] })

abbrev pub mov_from : Reg → M ℕ
mov_from r c = some (c.reg r, c)

-- `rdmsr`: the low and the high half.
abbrev pub rdmsr : ℕ → M (ℕ × ℕ)
rdmsr n c = some ((c.msr n % 2 ^ 32, c.msr n / 2 ^ 32 % 2 ^ 32), c)

module _ ⦃w : Stores⦄ where
  abbrev pub put : Reg → ℕ → Cpu → Cpu
  put r v c = record c {
    reg = update c.reg r (w.reg_value r (c.reg r) v);
    events = traced r c.events;
  }

  abbrev pub mov_to : Reg → ℕ → M (Unit {0})
  mov_to r v c = some (tt, put r v c)

  abbrev pub put_msr : ℕ → ℕ → Cpu → Cpu
  put_msr n v c = record c { msr = update_msr c.msr n (w.msr_value n (c.msr n) v) }

  abbrev pub wrmsr : ℕ → ℕ → ℕ → M (Unit {0})
  wrmsr n low high c = some (tt, put_msr n (high * 2 ^ 32 + low) c)

  abbrev pub sti : M (Unit {0})
  sti c = some (tt, put rflags (bit_or (c.reg rflags) 0x200) c)

  abbrev pub cli : M (Unit {0})
  cli c = some (tt, put rflags (bit_and (c.reg rflags) (not64 0x200)) c)

  -- Both the read and the write of `mov %%cr3, %0; mov %0, %%cr3`.
  abbrev pub reload_cr3 : M (Unit {0})
  reload_cr3 = mov_from cr3 >>= λ v. mov_to cr3 v
