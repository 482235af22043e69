-- ===== src/X86_64/Pic/Calls/Vectors.antt =====
-- Which line `Enable` of include/x86_64/pic.hpp opens: the one with the vector that it is given.
use cpu_io.Base.{ℕ, ◌+◌, ◌%◌, ◌≤◌, ◌<◌, ◌≡◌, arith, some, ◌==◌, if◌then◌else◌, bit_at}
use cpu_io.X86_64.Bus.{Bus}
use cpu_io.X86_64.Pic.{make_pic, enable}
use cpu_io.X86_64.Pic.Chip.{Controller}
use cpu_io.X86_64.Pic.Calls.{enabling, meant, perform}
use cpu_io.X86_64.Pic.Calls.Refinement.{
  constructed, driver, constructed-Represents, perform-Represents,
}

module _ {D : Type 0} ⦃bus : Bus D⦄ (m : Controller D bus 0x20 0x21)
    (s : Controller D bus 0xA0 0xA1) where
  -- On two controllers that keep to the documentation, with consecutive offsets that are multiples
  -- of 8, the constructor and then `Enable` of one of the sixteen numbers succeed, and a line of
  -- either controller is unmasked exactly if its vector, the controller's and its own number, is the
  -- one given.
  pub enabled_vector :
      (offset irq line : ℕ) (d : D)
      → offset % 8 ≡ 0
      → offset < 248
      → offset ≤ irq
      → irq < offset + 16
      → line < 8
      → (c : D) × (e : D) × (make_pic offset (offset + 8) d ≡ some (driver offset (offset + 8), c))
        × (enable (driver offset (offset + 8)) irq c ≡ some (tt, e))
        × (bit_at line (m.chip e).mask ≡ (if (m.chip e).vector + line == irq then 0 else 1))
        × (bit_at line (s.chip e).mask ≡ (if (s.chip e).vector + line == irq then 0 else 1))
  unfolding perform meant
  enabled_vector offset irq line d aligned small low high lt =
      let made = constructed-Represents m s offset (offset + 8) d (omega arith) (omega arith) in
      let done =
        perform-Represents m s (driver offset (offset + 8)) (enabling irq) made.0
          (constructed m s offset (offset + 8) made.0) made.2 in
      (
        made.0,
        done.0,
        made.1,
        done.1,
        ground (arith, done.2.0.lines line lt, done.2.0.base),
        ground (arith, done.2.1.lines line lt, done.2.1.base),
      )
