-- ===== src/X86_64/Pit/Tests.antt =====
-- A timer that meets the hypotheses of the theorems about include/x86_64/pit.hpp.
use cpu_io.Base.{
  ℕ, ◌+◌, ◌*◌, ◌≤◌, ◌<◌, ◌≡◌, Bool, true, false, arith, some, refl, if◌then◌else◌, ◌==◌,
}
use cpu_io.X86_64.Bus.{Bus}
use cpu_io.X86_64.Pit.{make_pit}
use cpu_io.X86_64.Pit.Laws.{Timer, frequency_reached}

-- The timer's channel keeps the low byte until the high one comes.
record Channel : Type 0 where
  low_next : Bool
  low : ℕ
  value : ℕ

instance abbrev channel_bus : Bus Channel
channel_bus = record {
  in_byte = λ port d. (0, d);
  out_byte = λ port v d.
      if port == 0x43
      then record d { low_next = true }
      else if d.low_next
      then record d { low_next = false; low = v }
      else record d { low_next = true; value = v * 256 + d.low };
  halted = λ d. d;
}

abbrev timer : Timer Channel channel_bus
timer = record { reload = λ d. d.value; load = λ low high d p q. refl }

abbrev channel : Channel
channel = record { low_next = true; low = 0; value = 0 }

frequency_reached_example :
    (d : Channel) × (make_pit 100 channel ≡ some (record { ticks_count = 0 }, d))
    × (d.value * 100 ≤ 1193180)
    × (1193180 < (d.value + 1) * 100)
frequency_reached_example = frequency_reached timer 100 channel (omega arith) (omega arith)
