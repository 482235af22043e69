-- ===== src/X86_64/Tests.antt =====
-- Inputs that meet the hypotheses of the theorems about the processor of include/x86_64.
use cpu_io.X86_64.ReadWrite.{set_bits, clear_bits}
use cpu_io.X86_64.Field.Update.{switch_flag}
use cpu_io.X86_64.Paging.Cr3.{four_level_indices}
use cpu_io.Base.{
  ◌+◌, ◌*◌, ◌<◌, bit_at, ℕ, ◌≡◌, ◌≢◌, List, Bool, true, false, arith, some, ◌%◌, ◌^◌, bit_and, refl,
  if◌then◌else◌, [], ◌∷◌, ◌==◌,
}
use cpu_io.X86_64.Machine.{invlpg, sfence, load_cr3, put, Reg, rflags, cr0, cr3, Stores, Cpu, ◌>>◌}
use cpu_io.X86_64.Paging.{
  create_page_table_entry, check_page_table_entry_permissions, get_page_directory,
  get_virtual_page_number, get_page_table_level_shift, get_page_offset,
}
use cpu_io.X86_64.Paging.Entry.{check-create_entry}
use cpu_io.X86_64.Apic.{
  read_tpr, write_tpr, read_sivr, write_sivr, read_icr, write_icr, read_lvt_timer, write_lvt_timer,
  read_lvt_lint0, write_lvt_lint0, read_lvt_lint1, write_lvt_lint1, read_lvt_error, write_lvt_error,
  read_timer_init_count, write_timer_init_count, read_timer_divide, write_timer_divide,
}
use cpu_io.X86_64.Calls
use cpu_io.X86_64.Calls.{
  Call, forbidding, directing, flushing_address, write_barrier, allowing, Meaning, meant, replay,
  Represents, Supports,
}
use cpu_io.X86_64.Calls.Refinement.{run_cpu-replay}
use cpu_io.X86_64.Cpu.{get_interrupt_status}
use cpu_io.X86_64.Apic.Modes
use cpu_io.X86_64.Apic.Modes.{
  Switch, globally_on, globally_off, x2_on, x2_off, mode, mode_of, mode_in, legal, target,
  all_legal, targets, invalid, x2apic, Reach,
}
use cpu_io.X86_64.Apic.Modes.Machine.{mode_sequence, x2apic_kept}
use cpu_io.X86_64.Apic.Laws.{Answers}
use cpu_io.X86_64.Apic.Registers.{with_msr, registers_hold}
use cpu_io.X86_64.Cpuid.{CpuidResult, zeros, get_vendor_string, get_brand_string}
use cpu_io.X86_64.Cpuid.Laws.{IsWide, words, strings_lem}

-- A processor that stores every value.
instance abbrev pub storing : Stores
storing = record { reg_value = λ r o v. v; msr_value = λ n o v. v }

abbrev booted : Reg → ℕ
booted rflags = 0x202
booted cr0 = 0x8000_0011
booted cr3 = 0x1_0000_1018
booted _ = 0

abbrev booted_msr : ℕ → ℕ
booted_msr n = if n == 0x1B then 0xFEE0_0900 else 0

abbrev pub cpu : Cpu
cpu = record { reg = booted; msr = booted_msr; events = [] }

check-create_entry_example :
    check_page_table_entry_permissions
      (create_page_table_entry 0x20_0000 true false true false true)
      true
      false
      true
      true
    ≡ false
check-create_entry_example =
    check-create_entry 0x20_0000 true false true false true true false true true

pub storing_cpu : Supports
storing_cpu = record { interrupt_flag = λ o v p q. refl; directories = λ o v p q. refl }

abbrev pub booted_meaning : Meaning
booted_meaning = record { directory = 0x1_0000_1000; interrupts = true; executed = [] }

pub booted_Represents : Represents cpu booted_meaning
booted_Represents = record {
  page = refl;
  directory_word = omega arith;
  taken = refl;
  status_word = omega arith;
  events = refl;
}

-- A critical section around a change of the directory.
abbrev pub change : List Call
change =
    forbidding ∷ directing 0x2345_6789 ∷ flushing_address 0x1000 0 ∷ write_barrier ∷ allowing ∷ []

abbrev changed : Meaning
changed = record {
  directory = 0x2345_6000;
  interrupts = true;
  executed = load_cr3 ∷ invlpg 0x1000 ∷ sfence ∷ [];
}

run_cpu-replay_example :
    (d : Cpu) × (Calls.run change cpu ≡ some (tt, d))
    × Represents d changed
    × (get_page_directory d ≡ some (0x2345_6000, d))
    × (get_interrupt_status d ≡ some (true, d))
unfolding replay meant
run_cpu-replay_example =
    run_cpu-replay storing_cpu change cpu booted_meaning booted_Represents
      (tt, (omega arith, (tt, (tt, (tt, tt)))))

-- A processor that stores every value, but for the base register of the local APIC, of which it
-- rejects the changes of the mode that are not documented.
abbrev guarding : Stores
guarding = record {
  reg_value = λ r o v. v;
  msr_value = λ n o v. if n == 0x1B then if legal (mode_in o) (mode_in v) then v else o else v;
}

-- From xAPIC mode to the disabled state, back, and on to x2APIC mode.
abbrev round : List Switch
round = globally_off ∷ globally_on ∷ x2_on ∷ []

mode_sequence_example :
    (d : Cpu) × (g : Bool) × (x : Bool) × (Modes.run ⦃w = guarding⦄ round cpu ≡ some (tt, d))
    × (mode_of g x ≡ targets round (mode cpu))
    × Answers d true g x 0xFEE0_0000
unfolding all_legal legal target mode_of
mode_sequence_example = mode_sequence ⦃w = guarding⦄ (λ o v p q. refl) round cpu (omega arith) refl

valid_mode : mode cpu ≢ invalid
unfolding mode_of
valid_mode = ground arith

x2apic_kept_example :
    (d : Cpu) × Reach ⦃w = guarding⦄ cpu d
    × (mode d ≡ x2apic)
    × ((e : Cpu) → Reach ⦃w = guarding⦄ d e → mode e ≡ x2apic)
x2apic_kept_example = x2apic_kept ⦃w = guarding⦄ (λ o v p q. refl) cpu (omega arith) valid_mode

-- A processor whose registers keep the bits of their masks: the timer's divisor has bits 0, 1 and 3.
abbrev narrow : Stores
narrow = record {
  reg_value = λ r o v. v;
  msr_value = λ n o v. (if n == 0x83E then bit_and v 0xB else v) % 2 ^ 64;
}

registers_hold_example :
    ((write_tpr ⦃w = narrow⦄ 0x25 >> read_tpr) cpu ≡ some (0x25, with_msr 0x808 0x25 cpu))
    × ((write_sivr ⦃w = narrow⦄ 0x25 >> read_sivr) cpu ≡ some (0x25, with_msr 0x80F 0x25 cpu))
    × ((write_lvt_timer ⦃w = narrow⦄ 0x25 >> read_lvt_timer) cpu
        ≡ some (0x25, with_msr 0x832 0x25 cpu))
    × ((write_lvt_lint0 ⦃w = narrow⦄ 0x25 >> read_lvt_lint0) cpu
        ≡ some (0x25, with_msr 0x835 0x25 cpu))
    × ((write_lvt_lint1 ⦃w = narrow⦄ 0x25 >> read_lvt_lint1) cpu
        ≡ some (0x25, with_msr 0x836 0x25 cpu))
    × ((write_lvt_error ⦃w = narrow⦄ 0x25 >> read_lvt_error) cpu
        ≡ some (0x25, with_msr 0x837 0x25 cpu))
    × ((write_timer_init_count ⦃w = narrow⦄ 0x25 >> read_timer_init_count) cpu
        ≡ some (0x25, with_msr 0x838 0x25 cpu))
    × ((write_timer_divide ⦃w = narrow⦄ 0x25 >> read_timer_divide) cpu
        ≡ some (0x1, with_msr 0x83E 0x1 cpu))
    × ((write_icr ⦃w = narrow⦄ 0x3_0000_4031 >> read_icr) cpu
        ≡ some (0x3_0000_4031, with_msr 0x830 0x3_0000_4031 cpu))
registers_hold_example =
    registers_hold ⦃w = narrow⦄ 0x25 0x3_0000_4031 cpu (omega arith) (omega arith)
      (λ n o v. omega arith)

-- A processor without brand leaves or leaf 11, as a function of the leaf.
abbrev cpuid : ℕ → ℕ → CpuidResult
cpuid leaf subleaf =
    if leaf == 0
    then record { eax = 1; ebx = 0x756E_6547; ecx = 0x6C65_746E; edx = 0x4965_6E69 }
    else if leaf == 1
    then record { eax = 0x6FB; ebx = 0x0304_0800; ecx = 0x0020_0000; edx = 0x0000_0230 }
    else record { eax = 0; ebx = 0; ecx = 0; edx = 0 }

cpuid-IsWide : (leaf : ℕ) → IsWide (cpuid leaf 0)
cpuid-IsWide leaf = record {
  eax_lt = ground arith;
  ebx_lt = ground arith;
  ecx_lt = ground arith;
  edx_lt = ground arith;
}

strings_example :
    (words 3 (get_vendor_string cpuid) ≡ (0x756E_6547 ∷ 0x4965_6E69 ∷ 0x6C65_746E ∷ [], 0 ∷ []))
    × (words 12 (get_brand_string cpuid)
        ≡ (0 ∷ 0 ∷ 0 ∷ 0 ∷ 0 ∷ 0 ∷ 0 ∷ 0 ∷ 0 ∷ 0 ∷ 0 ∷ 0 ∷ [], 0 ∷ []))
unfolding zeros
strings_example = strings_lem cpuid cpuid-IsWide

four_level_indices_example :
    (get_virtual_page_number 0x1234_5678_9ABC 3 * 2 ^ get_page_table_level_shift 3
        + get_virtual_page_number 0x1234_5678_9ABC 2 * 2 ^ get_page_table_level_shift 2
        + get_virtual_page_number 0x1234_5678_9ABC 1 * 2 ^ get_page_table_level_shift 1
        + get_virtual_page_number 0x1234_5678_9ABC 0 * 2 ^ get_page_table_level_shift 0
        + get_page_offset 0x1234_5678_9ABC
      ≡ 0x1234_5678_9ABC)
    × ((level : ℕ) → get_virtual_page_number 0x1234_5678_9ABC level < 512)
four_level_indices_example = four_level_indices 0x1234_5678_9ABC (omega arith)

-- The trap flag.
switch_flag_example :
    (s : ℕ) × (t : ℕ) × (set_bits rflags 8 cpu ≡ some (tt, put rflags s cpu))
    × (clear_bits rflags 8 cpu ≡ some (tt, put rflags t cpu))
    × ((i : ℕ) → bit_at i s ≡ (if i == 8 then 1 else bit_at i (cpu.reg rflags)))
    × ((i : ℕ) → bit_at i t ≡ (if i == 8 then 0 else bit_at i (cpu.reg rflags)))
switch_flag_example = switch_flag 8 cpu (omega arith) (omega arith)
