-- ===== src/X86_64/Pic/Calls.antt =====
-- Sequences of calls of the class `Pic` of include/x86_64/pic.hpp, and what they mean: which lines
-- of either controller are masked, and which interrupts are in service.
pub mod Refinement
pub mod Vectors
use cpu_io.Base.{
  ℕ, ◌-◌, ◌%◌, ◌<◌, ◌≡◌, Bool, true, false, leb, ◌==◌, List, [], ◌∷◌, if◌then◌else◌, bit_and,
  bit_at,
}
use cpu_io.X86_64.Bus.{Bus, M, pure, ◌>>=◌, ◌>>◌}
use cpu_io.X86_64.Pic.{Pic, enable, disable, disable_all, clear}
use cpu_io.X86_64.Pic.Chip.{Chip}

pub data Call : Type 0 where
  enabling disabling clearing : ℕ → Call
  disabling_all : Call

-- One controller, line by line.
pub record View : Type 0 where
  pub vector : ℕ
  pub masked : ℕ → Bool
  pub in_service : ℕ

pub record Meaning : Type 0 where
  pub master : View
  pub slave : View

-- Line k is masked or not; the others stay.
abbrev pub with_line : ℕ → Bool → View → View
with_line k b v = record v { masked = λ line. if line == k then b else v.masked line }

abbrev pub all_masked : View → View
all_masked v = record v { masked = λ line. true }

-- The lowest interrupt in service ends.
abbrev pub ended : View → View
ended v = record v { in_service = bit_and v.in_service (v.in_service - 1) }

-- An interrupt number is one of the slave's from the second offset on.
abbrev pub on_controller : Pic → ℕ → (View → View) → Meaning → Meaning
on_controller pic irq f m = record {
  master = if leb pic.offset2 irq then m.master else f m.master;
  slave = if leb pic.offset2 irq then f m.slave else m.slave;
}

unfoldable pub meant : Pic → Call → Meaning → Meaning
meant pic (enabling irq) m = on_controller pic irq (with_line (irq % 8) false) m
meant pic (disabling irq) m = on_controller pic irq (with_line (irq % 8) true) m
meant pic (clearing irq) m = on_controller pic irq ended m
meant pic disabling_all m = record { master = all_masked m.master; slave = all_masked m.slave }

unfoldable pub replay : Pic → List Call → Meaning → Meaning
replay pic [] m = m
replay pic (call ∷ calls) m = replay pic calls (meant pic call m)

-- An initialised controller with this view: a line is masked when its bit of the mask is one.
pub record Shows (c : Chip) (v : View) : Type 0 where
  pub ready : c.awaiting ≡ 0
  pub byte : c.mask < 256
  pub base : c.vector ≡ v.vector
  pub lines : (line : ℕ) → line < 8 → bit_at line c.mask ≡ (if v.masked line then 1 else 0)
  pub serving : c.in_service ≡ v.in_service

module _ {D : Type 0} ⦃bus : Bus D⦄ where
  unfoldable pub perform : Pic → Call → M D (Unit {0})
  perform pic (enabling irq) = enable pic irq
  perform pic (disabling irq) = disable pic irq
  perform pic (clearing irq) = clear pic irq
  perform pic disabling_all = disable_all

  unfoldable pub run : Pic → List Call → M D (Unit {0})
  run pic [] = pure tt
  run pic (call ∷ calls) = perform pic call >> run pic calls
