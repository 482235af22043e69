-- ===== src/X86_64/Apic/Modes.antt =====
-- The four mode switches of include/x86_64/apic.hpp as a state machine: which mode of the local APIC
-- each leads to, and which of these changes the processor accepts.
pub mod Machine
use cpu_io.Base.{
  ℕ, ◌%◌, ◌/◌, ◌^◌, ◌<◌, ◌≡◌, some, Bool, true, false, ◌&&◌, ◌!=◌, if◌then◌else◌, List, [], ◌∷◌,
}
use cpu_io.X86_64.Machine.{Stores, Cpu, M, pure, ◌>>=◌, ◌>>◌}
use cpu_io.X86_64.Apic.{enable_globally, disable_globally, enable_x2_apic, disable_x2_apic}
use cpu_io.X86_64.Apic.Laws.{flag}

pub data Switch : Type 0 where
  globally_on globally_off x2_on x2_off : Switch

pub data Mode : Type 0 where
  disabled xapic x2apic invalid : Mode

-- The mode by the global enable bit and the x2APIC bit.
unfoldable pub mode_of : Bool → Bool → Mode
mode_of false false = disabled
mode_of true false = xapic
mode_of true true = x2apic
mode_of false true = invalid

abbrev pub mode : Cpu → Mode
mode c = mode_of (flag 11 c) (flag 10 c)

-- Where a switch leads.
unfoldable pub target : Switch → Mode → Mode
target globally_on disabled = xapic
target globally_on invalid = x2apic
target globally_on m = m
target globally_off xapic = disabled
target globally_off x2apic = invalid
target globally_off m = m
target x2_on m = x2apic
target x2_off x2apic = xapic
target x2_off invalid = disabled
target x2_off m = m

unfoldable pub targets : List Switch → Mode → Mode
targets [] m = m
targets (s ∷ l) m = targets l (target s m)

-- The changes that the processor accepts, as documented for IA32_APIC_BASE: x2APIC mode is entered
-- from xAPIC mode alone and left for the disabled state alone; any other write faults.
unfoldable pub legal : Mode → Mode → Bool
legal disabled disabled = true
legal disabled xapic = true
legal xapic xapic = true
legal xapic x2apic = true
legal xapic disabled = true
legal x2apic x2apic = true
legal x2apic disabled = true
legal _ _ = false

-- The mode in a value of the base register.
abbrev pub mode_in : ℕ → Mode
mode_in v = mode_of (v / 2 ^ 11 % 2 != 0) (v / 2 ^ 10 % 2 != 0)

-- The changes of the mode that a sequence of switches asks for are all accepted.
unfoldable pub all_legal : List Switch → Mode → Bool
all_legal [] m = true
all_legal (s ∷ l) m = legal m (target s m) && all_legal l (target s m)

module _ ⦃w : Stores⦄ where
  -- A write of the base register that differs in the mode alone is stored if the processor accepts
  -- the change of the mode; a write that faults leaves the register as it is.
  abbrev pub GuardsModes : Type 0
  GuardsModes =
      (o v : ℕ)
      → o / 4096 ≡ v / 4096
      → o % 1024 ≡ v % 1024
      → w.msr_value 0x1B o v ≡ (if legal (mode_in o) (mode_in v) then v else o)

  unfoldable pub switch : Switch → M (Unit {0})
  switch globally_on = enable_globally
  switch globally_off = disable_globally
  switch x2_on = enable_x2_apic
  switch x2_off = disable_x2_apic

  unfoldable pub run : List Switch → M (Unit {0})
  run [] = pure tt
  run (s ∷ l) = switch s >> run l

  -- A switch that the processor accepts.
  pub data Step (c d : Cpu) : Type 0 where
    accepted : (s : Switch) → switch s c ≡ some (tt, d) → legal (mode c) (mode d) ≡ true → Step c d

  pub data Reach (c : Cpu) : Cpu → Type 0 where
    here : Reach c c
    next : {d e : Cpu} → Reach c d → Step d e → Reach c e
