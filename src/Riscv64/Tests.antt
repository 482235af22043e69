-- ===== src/Riscv64/Tests.antt =====
-- Inputs that meet the hypotheses of the theorems about include/riscv64, and runs of the code.
use cpu_io.Riscv64.Calls.{
  Call, enabling, disabling, allowing, flushing, directing, vectoring, Meaning, meant, replay,
  Represents, Fitting, run, Supports,
}
use cpu_io.Riscv64.Calls.Refinement.{run_calls-replay}
use cpu_io.RegisterInfo.Access.{compiles, consistent, member_fields}
use cpu_io.RegisterInfo.Table.{well_described}
use cpu_io.Riscv64.Registers.{declared}
use cpu_io.Riscv64.Registers.Laws.{declared_csr_access}
use cpu_io.Base.{
  ◌+◌, ◌*◌, ◌<◌, List, ◌∷◌, [], ◌^◌, ℕ, ◌≡◌, inl, true, false, arith, some, none, refl, [],
}
use cpu_io.RegisterInfo.{cast, get_value}
use cpu_io.RegisterInfo.Laws.{IsRun}
use cpu_io.Riscv64.Hart.{Reg, sstatus, stvec, satp, scause, time, tp, Csrs, Hart, update}
use cpu_io.Riscv64.Info.{satp_mode, satp_ppn}
use cpu_io.Riscv64.ReadWrite.{
  read, write, set_bits, clear_bits, read_write, read_set_bits, write_const, set_const, clear_const,
  read_write_const, read_set_bits_const,
}
use cpu_io.Riscv64.Field
use cpu_io.Riscv64.Field.Laws.{const_forms}
use cpu_io.Riscv64.Field.Update.{get-write}
use cpu_io.Riscv64.Cpu.{get_interrupt_status}
use cpu_io.Riscv64.Paging.{
  get_virtual_page_number, get_page_table_level_shift, get_page_offset, get_page_count,
  create_page_table_entry, check_page_table_entry_permissions, get_page_directory,
}
use cpu_io.Riscv64.Paging.Align.{get_page_count_lem, virtual_page_numbers}
use cpu_io.Riscv64.Paging.Entry.{check-create}

-- A hart that stores every value.
instance abbrev pub storing : Csrs
storing = record { legal = λ r o v. v }

abbrev booted : Reg → ℕ
booted sstatus = 0x8000_0002_0000_6022
booted stvec = 0x8020_0001
booted satp = 0x8000_0000_0008_0001
booted tp = 3
booted _ = 0

abbrev pub hart : Hart
hart = record { reg = booted; fences = [] }

satp_mode-IsRun : IsRun satp_mode
satp_mode-IsRun = record { fits = omega arith; ones = refl }

satp_ppn-IsRun : IsRun satp_ppn
satp_ppn-IsRun = record { fits = omega arith; ones = refl }

get-write_example :
    (h' : Hart) × (Field.write satp satp_ppn 0x12345 hart ≡ some (tt, h'))
    × (Field.get satp satp_ppn h' ≡ some (0x12345, h'))
    × (Field.get satp satp_mode h' ≡ some (get_value satp_mode (hart.reg satp), h'))
    × (h' ≡ record hart { reg = update hart.reg satp (h'.reg satp) })
unfolding cast
get-write_example =
    get-write satp satp_ppn satp_mode 0x12345 hart refl satp_ppn-IsRun satp_mode-IsRun
      (inl (omega arith)) (omega arith) refl (omega arith) refl

const_forms_example :
    (write_const scause 7 hart ≡ write scause 7 hart)
    × (set_const scause 7 hart ≡ set_bits scause 7 hart)
    × (clear_const scause 7 hart ≡ clear_bits scause 7 hart)
    × (read_write_const scause 7 hart ≡ read_write scause 7 hart)
    × (read_set_bits_const scause 7 hart ≡ read_set_bits scause 7 hart)
const_forms_example = const_forms scause 7 hart refl (omega arith) (omega arith)

check-create_example :
    check_page_table_entry_permissions
      (create_page_table_entry 0x8020_0000 true false true false true)
      true
      true
      false
      false
    ≡ false
check-create_example =
    check-create 0x8020_0000 true false true false true true true false false (omega arith)

get_page_count_example : get_page_count 0x1fff 0x3001 ≡ 3
get_page_count_example = get_page_count_lem 0x1fff 0x3001 (omega arith) (omega arith)

-- Interrupts are on after boot, and the hart is number 3.
boot_state : (get_interrupt_status hart ≡ some (true, hart)) × (read tp hart ≡ some (3, hart))
unfolding get_interrupt_status Field.get read get_value cast
boot_state = (refl, refl)

-- `Time` can be read and not written.
time_is_read_only : (read time hart ≡ some (0, hart)) × (write time 1 hart ≡ none)
unfolding read write
time_is_read_only = (refl, refl)

declared_csr_access_example :
    (compiles (read time hart) ≡ true)
    × (compiles (write time 5 hart) ≡ false)
    × (consistent (declared time).base (declared time).members ≡ true)
    × (well_described (member_fields (declared time).members) ≡ true)
declared_csr_access_example = declared_csr_access time 5 hart

abbrev pub hart-Supports : Supports
hart-Supports = record {
  pages = 2 ^ 44;
  sv39 = record { numbers = omega arith; stored = λ o v value. refl };
  sie = λ o v high low. refl;
  vectors = λ o v low. refl;
}

abbrev pub now : Meaning
now = record {
  paging = true;
  directory = 0x8000_1000;
  interrupts = true;
  vector = 0x8020_0001;
  fenced = [];
}

pub hart-Represents : Represents (2 ^ 44) hart now
hart-Represents = record {
  mode = refl;
  asid = refl;
  table = omega arith;
  bare = inl refl;
  fences = refl;
  page = refl;
  status_word = omega arith;
  taken = refl;
  trap = refl;
  trap_word = omega arith;
  trap_mode = omega arith;
}

abbrev pub boot : List Call
boot =
    directing 0
    ∷ disabling
    ∷ vectoring 0x8020_0102
    ∷ vectoring 0x8020_0100
    ∷ enabling
    ∷ directing 0x8123_4567
    ∷ flushing
    ∷ allowing
    ∷ []

pub fitting : Fitting (2 ^ 44) boot now
unfolding meant
fitting = (
  (omega arith, inl refl),
  (refl, (omega arith, (omega arith, (tt, ((omega arith, inl refl), (tt, (tt, tt))))))),
)

run_calls-replay_example :
    (h' : Hart) × (run boot hart ≡ some (tt, h'))
    × Represents (2 ^ 44) h' (replay boot now)
    × (get_page_directory h' ≡ some ((replay boot now).directory, h'))
    × (get_interrupt_status h' ≡ some ((replay boot now).interrupts, h'))
    × (h'.reg stvec ≡ (replay boot now).vector)
run_calls-replay_example = run_calls-replay hart-Supports boot hart now hart-Represents fitting

virtual_page_numbers_example :
    (get_virtual_page_number 0x12_3456_789A 2 * 2 ^ get_page_table_level_shift 2
        + get_virtual_page_number 0x12_3456_789A 1 * 2 ^ get_page_table_level_shift 1
        + get_virtual_page_number 0x12_3456_789A 0 * 2 ^ get_page_table_level_shift 0
        + get_page_offset 0x12_3456_789A
      ≡ 0x12_3456_789A)
    × ((level : ℕ) → get_virtual_page_number 0x12_3456_789A level < 512)
virtual_page_numbers_example = virtual_page_numbers 0x12_3456_789A (omega arith)
