-- ===== src/Aarch64/Tests.antt =====
-- Inputs that meet the hypotheses of the theorems about include/aarch64.
use cpu_io.Base.{
  ℕ, ◌+◌, ◌-◌, ◌^◌, ◌≡◌, inl, inr, true, false, arith, some, none, refl, if◌then◌else◌, List, [],
  ◌∷◌, ltb, bit_at, bit_and, bit_or, not64,
}
use cpu_io.RegisterInfo.{cast, get_value, in_field}
use cpu_io.RegisterInfo.Table.{well_described}
use cpu_io.Aarch64.Machine.{
  Reg, daif, tcr_el1, mair_el1, sctlr_el1, ttbr0_el1, ttbr1_el1, icc_pmr_el1, Stores, Core, put,
  update,
}
use cpu_io.Aarch64.Info.{tcr_el1_t0sz, tcr_el1_tg0, tcr_el1_ips}
use cpu_io.Aarch64.Info.System.{icc_pmr_el1_priority}
use cpu_io.Aarch64.Info.Fields.{fields}
use cpu_io.Aarch64.Field
use cpu_io.Aarch64.Field.Update.{
  fields-well_described, field-IsRun, get-write_described, switch_described,
}
use cpu_io.Aarch64.Field.Shift.{read_write_lem}
use cpu_io.Aarch64.ReadWrite.{write_const, set_const, clear_const}
use cpu_io.Aarch64.ReadWrite.Constants.{small_constants}
use cpu_io.Aarch64.Cpu.{get_interrupt_status}
use cpu_io.Aarch64.Paging.{create_page_table_entry}
use cpu_io.Aarch64.Translation.{enable_page, get_page_directory}
use cpu_io.Aarch64.Translation.Attributes.{attribute, created_attribute}
use cpu_io.Aarch64.Translation.Meaning.{
  Call, enabling, disabling, allowing, flushing_address, directing, Meaning, replay, Represents,
  run, Translates,
}
use cpu_io.Aarch64.Translation.Refinement.{run-replay}
use cpu_io.Aarch64.ReadWrite.{write}
use cpu_io.Aarch64.Psci.{SmcReturnValue, already_on, denied, Firmware, cpu_on, cpu_off}
use cpu_io.Aarch64.Psci.Laws.{power_calls}

-- A core that stores every value.
instance abbrev storing : Stores
storing = record { value = λ r o v. v }

abbrev booted : Reg → ℕ
booted sctlr_el1 = 0x30D0_0800
booted daif = 0x3C0
booted tcr_el1 = 0x80_0000
booted icc_pmr_el1 = 0x0F
booted ttbr0_el1 = 0x4000_0000
booted ttbr1_el1 = 0x4000_0000
booted _ = 0

abbrev core : Core
core = record { reg = booted; events = [] }

core-Translates : Translates
core-Translates = record {
  mair_kept = λ f o v m. refl;
  tcr_kept = λ f o v m. refl;
  sctlr_kept = λ f o v m. refl;
  ttbr0_kept = λ o v lt. refl;
  ttbr1_kept = λ o v lt. refl;
  daif_kept = λ o v high low. refl;
}

abbrev asleep : Meaning
asleep = record { paging = false; directory = 0x4000_0000; interrupts = false; executed = [] }

core-Represents : Represents core asleep
unfolding get_value cast
core-Represents = record {
  mair_word = omega arith;
  tcr_word = omega arith;
  sctlr_word = omega arith;
  daif_word = omega arith;
  switched = refl;
  attributes = λ e. cc;
  control = λ e. cc;
  lower = refl;
  upper = refl;
  taken = refl;
  events = refl;
}

abbrev calls : List Call
calls =
    directing 0x8000_0000
    ∷ enabling
    ∷ allowing
    ∷ flushing_address 0x1000
    ∷ disabling
    ∷ enabling
    ∷ []

run-replay_example :
    (c' : Core) × (run calls core ≡ some (tt, c'))
    × Represents c' (replay calls asleep)
    × (get_page_directory c' ≡ some ((replay calls asleep).directory, c'))
    × (get_interrupt_status c' ≡ some ((replay calls asleep).interrupts, c'))
run-replay_example = run-replay core-Translates calls core asleep core-Represents (omega arith, tt)

created_attribute_example :
    (c' : Core) × (enable_page core ≡ some (tt, c'))
    × (attribute (c'.reg mair_el1) (create_page_table_entry 0x4008_0000 true true false false true)
        ≡ 0xFF)
created_attribute_example =
    created_attribute core 0x4008_0000 true true false false true (λ f o v m. refl)
      (λ f o v m. refl) (λ f o v m. refl) (omega arith) (omega arith) (omega arith) (omega arith)

get-write_described_example :
    (c' : Core) × (Field.write tcr_el1 tcr_el1_t0sz 25 core ≡ some (tt, c'))
    × (Field.get tcr_el1 tcr_el1_t0sz c' ≡ some (25, c'))
    × (Field.get tcr_el1 tcr_el1_tg0 c' ≡ some (get_value tcr_el1_tg0 (core.reg tcr_el1), c'))
    × (c' ≡ record core { reg = update core.reg tcr_el1 (c'.reg tcr_el1) })
get-write_described_example =
    get-write_described tcr_el1 tcr_el1_t0sz tcr_el1_tg0 25 core refl
      (inr (inr (inr (inr (inl refl))))) (inr (inr (inr (inl refl)))) (omega arith) (omega arith)
      (omega arith) refl

switch_described_example :
    (s : ℕ) × (t : ℕ) × (Field.set icc_pmr_el1 icc_pmr_el1_priority core
      ≡ some (tt, put icc_pmr_el1 s core))
    × (Field.clear icc_pmr_el1 icc_pmr_el1_priority core ≡ none)
    × ((i : ℕ) → bit_at i s ≡ (if in_field icc_pmr_el1_priority i then 1 else bit_at i 0x0F))
    × ((i : ℕ) → bit_at i t ≡ (if in_field icc_pmr_el1_priority i then 0 else bit_at i 0x0F))
switch_described_example =
    switch_described icc_pmr_el1 icc_pmr_el1_priority core (inl refl) (omega arith)

read_write_example : Field.read_write tcr_el1 tcr_el1_ips 5 core ≡ none
read_write_example =
    read_write_lem tcr_el1 tcr_el1_ips 5 core refl (field-IsRun tcr_el1 tcr_el1_ips (inl refl)) refl

fields-well_described_example : well_described (fields tcr_el1) ≡ true
fields-well_described_example = fields-well_described tcr_el1

small_constants_example :
    (write_const daif 2 core ≡ none)
    × (set_const daif 2 core ≡ some (tt, put daif (bit_or 0x3C0 0x80) core))
    × (clear_const daif 2 core ≡ some (tt, put daif (bit_and 0x3C0 (not64 0x80)) core))
small_constants_example = small_constants daif 2 core (omega arith)

abbrev returned : ℕ → SmcReturnValue
returned x0 = record { a0 = x0; a1 = 0; a2 = 0; a3 = 0 }

-- Firmware that counts the calls, and finds every target on already.
instance abbrev counting : Firmware ℕ
counting = record {
  smc = λ args calls.
      some (returned (if ltb args.x0 0xC000_0000 then 2 ^ 64 - 3 else 2 ^ 64 - 4), calls + 1);
}

power_calls_example :
    (cpu_on {S = ℕ} 1 0x4008_0000 7 5 ≡ some (already_on, 6))
    × (cpu_off {S = ℕ} 5 ≡ some (denied, 6))
power_calls_example =
    power_calls 1 0x4008_0000 7 already_on denied (returned (2 ^ 64 - 4)) (returned (2 ^ 64 - 3)) 5
      6 6 refl refl refl refl
