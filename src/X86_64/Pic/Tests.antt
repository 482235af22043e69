-- ===== src/X86_64/Pic/Tests.antt =====
-- Two controllers that meet the hypotheses of the theorems about include/x86_64/pic.hpp.
use cpu_io.Base.{
  ◌+◌, ◌/◌, ◌*◌, bit_at, ℕ, ◌≡◌, arith, List, [], ◌∷◌, some, refl, if◌then◌else◌, ◌==◌,
}
use cpu_io.X86_64.Bus.{Bus}
use cpu_io.X86_64.Pic.{Pic, make_pic}
use cpu_io.X86_64.Pic.Chip.{Chip, Controller, end_of_interrupt}
use cpu_io.X86_64.Pic.Calls.{Call, enabling, disabling, clearing, disabling_all, replay, run}
use cpu_io.X86_64.Pic.Calls.Vectors.{enabled_vector}
use cpu_io.X86_64.Pic.{enable}
use cpu_io.X86_64.Pic.Calls.Refinement.{Represents, constructed, driver, driver_calls}

record Pair : Type 0 where
  first : Chip
  second : Chip

abbrev on_command : ℕ → Chip → Chip
on_command v c =
    if v == 0x11
    then record c { awaiting = 3 }
    else if v == 0x20
    then end_of_interrupt c
    else if v == 0x0A
    then record c { selected = 0x0A }
    else if v == 0x0B
    then record c { selected = 0x0B }
    else c

abbrev on_data : ℕ → Chip → Chip
on_data v c =
    if c.awaiting == 3
    then record c { awaiting = 2; vector = v / 8 * 8 }
    else if c.awaiting == 2
    then record c { awaiting = 1; cascade = v }
    else if c.awaiting == 1
    then record c { awaiting = 0 }
    else record c { mask = v }

abbrev shown : Chip → ℕ
shown c = if c.selected == 0x0A then c.requests else c.in_service

instance abbrev pair_bus : Bus Pair
pair_bus = record {
  in_byte = λ port d. (
    (if port == 0x20
        then shown d.first
        else if port == 0x21
        then d.first.mask
        else if port == 0xA0
        then shown d.second
        else d.second.mask),
    d,
  );
  out_byte = λ port v d. record {
    first =
        if port == 0x20
        then on_command v d.first
        else if port == 0x21
        then on_data v d.first
        else d.first;
    second =
        if port == 0xA0
        then on_command v d.second
        else if port == 0xA1
        then on_data v d.second
        else d.second;
  };
  halted = λ d. d;
}

abbrev master : Controller Pair pair_bus 0x20 0x21
master = record {
  chip = λ d. d.first;
  icw1 = λ d. refl;
  icw2 = λ v d e. ground arith;
  icw3 = λ v d e. ground arith;
  icw4 = λ v d e. ground arith;
  ocw1 = λ v d e. ground arith;
  eoi = λ d. refl;
  select_irr = λ d. refl;
  select_isr = λ d. refl;
  read_data = λ d e. refl;
  read_command = λ d. refl;
  elsewhere = λ port v d p q. ground arith;
}

abbrev slave : Controller Pair pair_bus 0xA0 0xA1
slave = record {
  chip = λ d. d.second;
  icw1 = λ d. refl;
  icw2 = λ v d e. ground arith;
  icw3 = λ v d e. ground arith;
  icw4 = λ v d e. ground arith;
  ocw1 = λ v d e. ground arith;
  eoi = λ d. refl;
  select_irr = λ d. refl;
  select_isr = λ d. refl;
  read_data = λ d e. refl;
  read_command = λ d. refl;
  elsewhere = λ port v d p q. ground arith;
}

-- Line 12 is in service at the slave, and with it line 2 at the master.
abbrev chip : ℕ → ℕ → Chip
chip requests in_service = record {
  awaiting = 0;
  vector = 0x20;
  cascade = 4;
  mask = 0xFF;
  requests = requests;
  in_service = in_service;
  selected = 0x0A;
}

abbrev pair : Pair
pair = record { first = chip 0x81 0x04; second = chip 0x30 0x10 }

abbrev pic : Pic
pic = record { offset1 = 0x20; offset2 = 0x28 }

-- Line 12 is enabled, everything is disabled, lines 1 and 4 are enabled and 4 is disabled again.
abbrev some_calls : List Call
some_calls =
    enabling 0x2C
    ∷ disabling_all
    ∷ enabling 0x21
    ∷ clearing 0x2C
    ∷ enabling 0x24
    ∷ disabling 0x24
    ∷ []

driver_calls_example :
    (c : Pair) × (e : Pair) × (make_pic 0x20 0x28 pair ≡ some (driver 0x20 0x28, c))
    × Represents master slave c (constructed master slave 0x20 0x28 c)
    × (run (driver 0x20 0x28) some_calls c ≡ some (tt, e))
    × Represents master slave e
        (replay (driver 0x20 0x28) some_calls (constructed master slave 0x20 0x28 c))
driver_calls_example =
    driver_calls master slave 0x20 0x28 some_calls pair (omega arith) (omega arith)

-- The keyboard, line 1 of the master.
enabled_vector_example :
    (c : Pair) × (e : Pair) × (make_pic 0x20 0x28 pair ≡ some (driver 0x20 0x28, c))
    × (enable (driver 0x20 0x28) 0x21 c ≡ some (tt, e))
    × (bit_at 1 e.first.mask ≡ (if e.first.vector + 1 == 0x21 then 0 else 1))
    × (bit_at 1 e.second.mask ≡ (if e.second.vector + 1 == 0x21 then 0 else 1))
enabled_vector_example =
    enabled_vector master slave 0x20 0x21 1 pair (omega arith) (omega arith) (omega arith)
      (omega arith) (omega arith)
