-- ===== src/Riscv64/Calls/Refinement.antt =====
-- That sequences of calls of include/riscv64 do what they mean.
use cpu_io.Base.{
  ℕ, ◌++◌, ◌+◌, ◌*◌, ◌/◌, ◌%◌, ◌^◌, ◌≤◌, ◌<◌, ◌≡◌, ◌⊎◌, inl, inr, Bool, true, false, Bool-cases,
  ◌==◌, List, [], ◌∷◌, if◌then◌else◌, arith, ap, ◌∙◌, refl, some,
}
use cpu_io.RegisterInfo.{cast}
use cpu_io.RegisterInfo.Laws.{get_value-eq}
use cpu_io.Riscv64.Hart.{
  satp, sstatus, stvec, Fence, sfence_vma, sfence_vma_all, Csrs, Hart, ◌>>=◌, ◌>>◌,
}
use cpu_io.Riscv64.Info.{satp_ppn}
use cpu_io.Riscv64.Field.Update.{get-eq}
use cpu_io.Riscv64.Cpu.{get_interrupt_status}
use cpu_io.Riscv64.Cpu.Laws.{with_reg, interrupt_switch, set_direct_lem, get_interrupt_status-eq}
use cpu_io.Riscv64.Paging.{get_page_directory, flush_tlb_address, flush_tlb_all}
use cpu_io.Riscv64.Paging.Satp.{
  with_satp, enable_page-eq, disable_page-eq, set_page_directory-eq, satp_ppn-IsRun,
}
use cpu_io.Riscv64.Calls.{
  Call, enabling, disabling, allowing, forbidding, flushing, flushing_address, directing, vectoring,
  Meaning, meant, replay, Fits, Fitting, Represents, perform, run, Supports,
}

-- `GetPageDirectory` answers with the page that satp names.
get_page_directory-eq : (h : Hart) → get_page_directory h ≡ some (h.reg satp % 2 ^ 44 * 2 ^ 12, h)
unfolding get_page_directory cast
get_page_directory-eq h =
    rw (get-eq satp satp_ppn h, ◌>>=◌)
      (ap (λ (t : ℕ). some (t, h))
        (omega (arith, get_value-eq satp_ppn satp_ppn-IsRun (h.reg satp))))

-- A hart with another value in satp.
satp-Represents :
    {pages : ℕ} (h : Hart) (m : Meaning) (v : ℕ) (paging : Bool) (directory : ℕ)
    → Represents pages h m
    → v ≡ (if paging then 8 * 2 ^ 60 else 0) + directory / 4096
    → directory % 4096 ≡ 0
    → directory / 4096 < pages
    → pages ≤ 2 ^ 44
    → (paging ≡ true) ⊎ (directory ≡ 0)
    → Represents pages (with_satp h v) (record m { paging = paging; directory = directory })
satp-Represents h m v paging directory r value aligned lt small bare = record {
  mode = ground (arith, value);
  asid = ground (arith, value);
  page = ground (arith, value);
  table = ground (arith, value);
  bare = bare;
  status_word = r.status_word;
  taken = r.taken;
  trap = r.trap;
  trap_word = r.trap_word;
  trap_mode = r.trap_mode;
  fences = r.fences;
}

sstatus-Represents :
    {pages : ℕ} (h : Hart) (m : Meaning) (v : ℕ) (interrupts : Bool)
    → Represents pages h m
    → v < 2 ^ 64
    → (v / 2 % 2 == 1) ≡ interrupts
    → Represents pages (with_reg sstatus h v) (record m { interrupts = interrupts })
sstatus-Represents h m v interrupts r lt taken = record {
  mode = r.mode;
  asid = r.asid;
  page = r.page;
  table = r.table;
  bare = r.bare;
  status_word = lt;
  taken = taken;
  trap = r.trap;
  trap_word = r.trap_word;
  trap_mode = r.trap_mode;
  fences = r.fences;
}

stvec-Represents :
    {pages : ℕ} (h : Hart) (m : Meaning) (v : ℕ)
    → Represents pages h m
    → v < 2 ^ 64
    → v % 4 ≤ 1
    → Represents pages (with_reg stvec h v) (record m { vector = v })
stvec-Represents h m v r lt low = record {
  mode = r.mode;
  asid = r.asid;
  page = r.page;
  table = r.table;
  bare = r.bare;
  status_word = r.status_word;
  taken = r.taken;
  trap = refl;
  trap_word = lt;
  trap_mode = low;
  fences = r.fences;
}

fence-Represents :
    {pages : ℕ} (h : Hart) (m : Meaning) (f : Fence)
    → Represents pages h m
    → Represents pages
        (record h { fences = h.fences ++ f ∷ [] })
        (record m { fenced = m.fenced ++ f ∷ [] })
fence-Represents h m f r = record {
  mode = r.mode;
  asid = r.asid;
  page = r.page;
  table = r.table;
  bare = r.bare;
  status_word = r.status_word;
  taken = r.taken;
  trap = r.trap;
  trap_word = r.trap_word;
  trap_mode = r.trap_mode;
  fences = ap (λ (l : List Fence). l ++ f ∷ []) r.fences;
}

-- satp of a hart that represents a state.
satp-eq :
    {pages : ℕ} (h : Hart) (m : Meaning)
    → Represents pages h m
    → h.reg satp ≡ (if m.paging then 8 * 2 ^ 60 else 0) + m.directory / 4096
satp-eq h m r = ground (arith, r.mode, r.asid, r.page)

module _ ⦃c : Csrs⦄ (hart : Supports) where
  abbrev Performs : Call → Hart → Meaning → Type 0
  Performs call h m =
      (h' : Hart) × (perform call h ≡ some (tt, h')) × Represents hart.pages h' (meant call m)

  perform_vectoring :
      (addr : ℕ) (h : Hart) (m : Meaning)
      → Represents hart.pages h m
      → addr < 2 ^ 64
      → Performs (vectoring addr) h m
  unfolding perform meant
  perform_vectoring addr h m r lt = elim (Bool-cases (addr % 4 == 0)) [
    | inl e ↦ (
      with_reg stvec h addr,
      rw (set_direct_lem addr h hart.vectors r.trap_mode r.trap_word lt, ◌>>=◌, e) refl,
      rw e (stvec-Represents h m addr r lt (ground arith)),
    )
    | inr e ↦ (
      h,
      rw (set_direct_lem addr h hart.vectors r.trap_mode r.trap_word lt, ◌>>=◌, e) refl,
      rw e r,
    )
  ]

  perform-Represents :
      (call : Call) (h : Hart) (m : Meaning)
      → Represents hart.pages h m
      → Fits hart.pages call m
      → Performs call h m
  unfolding perform meant flush_tlb_all flush_tlb_address
  perform-Represents enabling h m r ok =
      let p = m.directory / 4096 in
      (
        with_satp h (8 * 2 ^ 60 + p),
        enable_page-eq h hart.pages p hart.sv39 (omega (arith, r.page, r.table))
            (ground (arith, satp-eq h m r, r.bare)),
        satp-Represents h m (8 * 2 ^ 60 + p) true m.directory r refl (omega (arith, r.page))
            (omega (arith, r.page, r.table)) hart.sv39.numbers (inl refl),
      )
  perform-Represents disabling h m r ok = (
    with_satp h 0,
    disable_page-eq h hart.pages hart.sv39 (ground (arith, satp-eq h m r)),
    satp-Represents h m 0 false m.directory r (rw ok refl) (omega arith)
        (omega (arith, r.page, r.table)) hart.sv39.numbers (inr ok),
  )
  perform-Represents allowing h m r ok =
      let done = interrupt_switch h hart.sie r.status_word in
      (
        done.0,
        done.2,
        rw done.6 (
            sstatus-Represents h m (h.reg sstatus / 4 * 4 + 2 + h.reg sstatus % 2) true r
              (omega (arith, r.status_word)) (ground arith)),
      )
  perform-Represents forbidding h m r ok =
      let done = interrupt_switch h hart.sie r.status_word in
      (
        done.1,
        done.4,
        rw done.7 (
            sstatus-Represents h m (h.reg sstatus / 4 * 4 + h.reg sstatus % 2) false r
              (omega (arith, r.status_word)) (ground arith)),
      )
  perform-Represents flushing h m r ok = (_, refl, fence-Represents h m sfence_vma_all r)
  perform-Represents (flushing_address virtual_addr) h m r ok =
      (_, refl, fence-Represents h m (sfence_vma virtual_addr) r)
  perform-Represents (directing pgd) h m r ok =
      let new = (if m.paging then 8 * 2 ^ 60 else 0) + pgd / 4096 in
      let numbers = hart.sv39.numbers in
      (
        with_satp h new,
        set_page_directory-eq pgd new h hart.pages hart.sv39 ok.0
            (omega (arith, satp-eq h m r, r.page, r.table, numbers)) (ground (arith, ok.1)),
        satp-Represents h m new m.paging (pgd / 4096 * 4096) r (omega arith) (omega arith)
            (omega (arith, ok.0)) numbers (ground (arith, ok.1)),
      )
  perform-Represents (vectoring addr) h m r ok = perform_vectoring addr h m r ok

  -- On a hart with Sv39 and page tables in the pages below a number, a writable SIE bit and the
  -- vector modes Direct and Vectored, whose state means m, every sequence of calls that fit runs to
  -- its end, in a hart whose state means what the calls make of m; `GetPageDirectory` and
  -- `GetInterruptStatus` then answer so, stvec is the last vector that was accepted, and each flush
  -- has executed its fence, in order. The calls fit where every directory is in a page of the hart
  -- and is zero while paging is off, `DisablePage` too comes when it is zero, and vectors are 64-bit.
  pub run_calls-replay :
      (calls : List Call) (h : Hart) (m : Meaning)
      → Represents hart.pages h m
      → Fitting hart.pages calls m
      → (h' : Hart) × (run calls h ≡ some (tt, h'))
        × Represents hart.pages h' (replay calls m)
        × (get_page_directory h' ≡ some ((replay calls m).directory, h'))
        × (get_interrupt_status h' ≡ some ((replay calls m).interrupts, h'))
        × (h'.reg stvec ≡ (replay calls m).vector)
  unfolding run replay
  run_calls-replay [] h m r ok = (
    h,
    refl,
    r,
    get_page_directory-eq h ∙ ap (λ (x : ℕ). some (x, h)) r.page,
    get_interrupt_status-eq h ∙ ap (λ (b : Bool). some (b, h)) r.taken,
    r.trap,
  )
  run_calls-replay (call ∷ calls) h m r ok =
      let first = perform-Represents call h m r ok.0 in
      let rest = run_calls-replay calls first.0 (meant call m) first.2 ok.1 in
      (rest.0, rw (first.1, ◌>>◌, ◌>>=◌) rest.1, rest.2, rest.3, rest.4, rest.5)
