-- ===== src/X86_64/Calls/Refinement.antt =====
-- That sequences of calls of include/x86_64 do what they mean.
use cpu_io.Base.{
  ℕ, ◌+◌, ◌*◌, ◌/◌, ◌%◌, ◌^◌, ◌<◌, ◌≡◌, ◌∙◌, ap, refl, arith, some, Bool, true, false, ◌!=◌, List,
  [], ◌∷◌, ◌++◌,
}
use cpu_io.X86_64.Machine.{
  cr3, rflags, Event, mfence, lfence, sfence, invlpg, load_cr3, Stores, Cpu, put, ◌>>=◌, ◌>>◌,
}
use cpu_io.X86_64.Machine
use cpu_io.X86_64.Cpu.{get_interrupt_status, mb, rmb, wmb, pause}
use cpu_io.X86_64.Cpu.Laws.{with_reg, interrupt_flag_switch, get_interrupt_status-eq}
use cpu_io.X86_64.Paging.{
  get_page_directory, enable_page, disable_page, flush_tlb_address, flush_tlb_all,
}
use cpu_io.X86_64.Paging.Cr3.{loaded, get-set_directory, get_page_directory-eq}
use cpu_io.X86_64.Calls.{
  Call, paging, unpaging, allowing, forbidding, flushing, all_barrier, read_barrier, write_barrier,
  pausing, directing, flushing_address, Meaning, meant, replay, Fits, Fitting, Represents, perform,
  run, Supports,
}

cr3-Represents :
    (c : Cpu) (m : Meaning) (v directory : ℕ)
    → Represents c m
    → v < 2 ^ 52
    → v / 4096 * 4096 ≡ directory
    → Represents
        (loaded c v)
        (record m { directory = directory; executed = m.executed ++ load_cr3 ∷ [] })
cr3-Represents c m v directory r lt page = record {
  page = page;
  directory_word = lt;
  taken = r.taken;
  status_word = r.status_word;
  events = ap (λ (l : List Event). l ++ load_cr3 ∷ []) r.events;
}

rflags-Represents :
    (c : Cpu) (m : Meaning) (v : ℕ) (interrupts : Bool)
    → Represents c m
    → v < 2 ^ 64
    → (v / 512 % 2 != 0) ≡ interrupts
    → Represents (with_reg rflags c v) (record m { interrupts = interrupts })
rflags-Represents c m v interrupts r lt taken = record {
  page = r.page;
  directory_word = r.directory_word;
  taken = taken;
  status_word = lt;
  events = r.events;
}

event-Represents :
    (c : Cpu) (m : Meaning) (e : Event)
    → Represents c m
    → Represents
        (record c { events = c.events ++ e ∷ [] })
        (record m { executed = m.executed ++ e ∷ [] })
event-Represents c m e r = record {
  page = r.page;
  directory_word = r.directory_word;
  taken = r.taken;
  status_word = r.status_word;
  events = ap (λ (l : List Event). l ++ e ∷ []) r.events;
}

module _ ⦃w : Stores⦄ (cpu : Supports) where
  abbrev Performs : Call → Cpu → Meaning → Type 0
  Performs call c m = (d : Cpu) × (perform call c ≡ some (tt, d)) × Represents d (meant call m)

  perform-Represents :
      (call : Call) (c : Cpu) (m : Meaning) → Represents c m → Fits call → Performs call c m
  unfolding perform meant flush_tlb_all flush_tlb_address enable_page disable_page mb rmb wmb pause
  perform-Represents paging c m r ok = (c, refl, r)
  perform-Represents unpaging c m r ok = (c, refl, r)
  perform-Represents all_barrier c m r ok = (_, refl, event-Represents c m mfence r)
  perform-Represents read_barrier c m r ok = (_, refl, event-Represents c m lfence r)
  perform-Represents write_barrier c m r ok = (_, refl, event-Represents c m sfence r)
  perform-Represents pausing c m r ok = (_, refl, event-Represents c m Machine.pause r)
  perform-Represents (flushing_address virtual_addr asid) c m r ok =
      (_, refl, event-Represents c m (invlpg virtual_addr) r)
  perform-Represents allowing c m r ok =
      let done = interrupt_flag_switch c cpu.interrupt_flag r.status_word in
      (
        done.0,
        done.2,
        rw done.6 (
            rflags-Represents c m (c.reg rflags / 1024 * 1024 + 512 + c.reg rflags % 512) true r
              (omega (arith, r.status_word)) (ground arith)),
      )
  perform-Represents forbidding c m r ok =
      let done = interrupt_flag_switch c cpu.interrupt_flag r.status_word in
      (
        done.1,
        done.4,
        rw done.7 (
            rflags-Represents c m (c.reg rflags / 1024 * 1024 + c.reg rflags % 512) false r
              (omega (arith, r.status_word)) (ground arith)),
      )
  perform-Represents flushing c m r ok = (
    loaded c (c.reg cr3),
    rw (cpu.directories (c.reg cr3) (c.reg cr3) r.directory_word refl) refl,
    cr3-Represents c m (c.reg cr3) m.directory r r.directory_word r.page,
  )
  perform-Represents (directing pgd) c m r ok =
      let new = pgd / 4096 * 4096 + c.reg cr3 % 4096 in
      let done =
        get-set_directory pgd c (omega arith) (omega (arith, r.directory_word))
          (cpu.directories (c.reg cr3) new (omega arith) (omega arith)) in
      (
        done.0,
        done.1,
        rw done.3 (cr3-Represents c m new (pgd / 4096 * 4096) r (omega arith) (omega arith)),
      )

  -- On a processor that stores the interrupt flag and the directories, whose state means m, every
  -- sequence of paging, directory, TLB, interrupt and barrier calls with directories below 2^52 runs
  -- to its end, in a state that means what the calls make of m: the last directory, the last
  -- interrupt switch, and in the order of the calls the barriers, the pauses and the TLB
  -- invalidations: one `invlpg` for each `FlushTLB` of an address, and one write of CR3 for each
  -- `FlushTLBAll` and `SetPageDirectory`. `GetPageDirectory` and `GetInterruptStatus` then answer so.
  pub run_cpu-replay :
      (calls : List Call) (c : Cpu) (m : Meaning)
      → Represents c m
      → Fitting calls
      → (d : Cpu) × (run calls c ≡ some (tt, d))
        × Represents d (replay calls m)
        × (get_page_directory d ≡ some ((replay calls m).directory, d))
        × (get_interrupt_status d ≡ some ((replay calls m).interrupts, d))
  unfolding run replay
  run_cpu-replay [] c m r ok = (
    c,
    refl,
    r,
    get_page_directory-eq c (omega (arith, r.directory_word)) ∙ ap (λ (x : ℕ). some (x, c)) r.page,
    get_interrupt_status-eq c ∙ ap (λ (b : Bool). some (b, c)) r.taken,
  )
  run_cpu-replay (call ∷ calls) c m r ok =
      let first = perform-Represents call c m r ok.0 in
      let rest = run_cpu-replay calls first.0 (meant call m) first.2 ok.1 in
      (rest.0, rw (first.1, ◌>>◌, ◌>>=◌) rest.1, rest.2, rest.3, rest.4)
