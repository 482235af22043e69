-- ===== src/Aarch64/Translation/Refinement.antt =====
-- That sequences of calls of include/aarch64/cpu.hpp and include/aarch64/virtual_memory.hpp do
-- what they mean.
use cpu_io.Base.{
  ℕ, ◌/◌, ◌%◌, ◌^◌, ◌≡◌, inl, Bool, true, false, ◌&&◌, ◌==◌, List, [], ◌∷◌, ◌++◌, ap, sym, ◌∙◌,
  arith, refl, some,
}
use cpu_io.RegisterInfo.Sequence.{Fits, inserts-lt}
use cpu_io.Aarch64.Machine.{
  daif, mair_el1, tcr_el1, sctlr_el1, ttbr0_el1, ttbr1_el1, Stores, Core, put, ◌>>=◌, ◌>>◌,
}
use cpu_io.Aarch64.Info.System.{sctlr_el1_m}
use cpu_io.Aarch64.Info.Fields.{fields}
use cpu_io.Aarch64.Field.Update.{fields-well_described}
use cpu_io.Aarch64.Cpu.{get_interrupt_status}
use cpu_io.Aarch64.Cpu.Laws.{get_interrupt_status-eq}
use cpu_io.Aarch64.Translation.{
  enable_page, disable_page, set_page_directory, get_page_directory, flush_tlb_address,
  flush_tlb_all,
}
use cpu_io.Aarch64.Translation.Laws.{
  flush_tlb_all-eq, flush_tlb_address-eq, mair_writes, tcr_writes, sctlr_clears, mair_writes-Fits,
  tcr_writes-Fits, sctlr_clears-Fits, enable_page-eq, disable_page-eq,
}
use cpu_io.Aarch64.Translation.Meaning.{
  Call, enabling, disabling, allowing, forbidding, flushing, flushing_address, directing, Meaning,
  meant, replay, Words, Represents, mair-Reads, tcr-Reads, sctlr_reads, perform, run, Translates,
}
use cpu_io.Aarch64.ReadWrite.{read, write}
use cpu_io.Aarch64.Machine.Events.{with_events}
use cpu_io.Aarch64.Machine.{Event, isb, dsb_sy, tlbi_vmalle1, tlbi_vmalle1is, tlbi_vae1is}
use cpu_io.Aarch64.Cpu.Laws.{mask_switch}

Words-head : (call : Call) (calls : List Call) → Words (call ∷ calls) → Words (call ∷ [])
Words-head (directing pgd) calls words = (words.0, tt)
Words-head enabling calls words = tt
Words-head disabling calls words = tt
Words-head allowing calls words = tt
Words-head forbidding calls words = tt
Words-head flushing calls words = tt
Words-head (flushing_address virtual_addr) calls words = tt

Words-tail : (call : Call) (calls : List Call) → Words (call ∷ calls) → Words calls
Words-tail (directing pgd) calls words = words.1
Words-tail enabling calls words = words
Words-tail disabling calls words = words
Words-tail allowing calls words = words
Words-tail forbidding calls words = words
Words-tail flushing calls words = words
Words-tail (flushing_address virtual_addr) calls words = words

module _ ⦃w : Stores⦄ where
  module _ (core : Translates) where
    enable_page-Represents :
        (c : Core) (m : Meaning)
        → Represents c m
        → (c' : Core) × (enable_page c ≡ some (tt, c')) × Represents c' (meant enabling m)
    unfolding meant
    enable_page-Represents c m r =
        let done =
          enable_page-eq c core.mair_kept core.tcr_kept core.sctlr_kept r.mair_word r.tcr_word
            r.sctlr_word in
        let on : Fits (fields sctlr_el1) ((sctlr_el1_m, 1) ∷ []) = (inl refl, omega arith, tt) in
        (
          done.0,
          done.1,
          record {
            mair_word = rw (done.2.0) (
                inserts-lt (fields mair_el1) (fields-well_described mair_el1) mair_writes
                  (c.reg mair_el1) mair_writes-Fits r.mair_word);
            tcr_word = rw (done.2.1) (
                inserts-lt (fields tcr_el1) (fields-well_described tcr_el1) (tcr_writes 16 16)
                  (c.reg tcr_el1) (tcr_writes-Fits 16 16 (omega arith) (omega arith)) r.tcr_word);
            sctlr_word = rw (done.2.2) (
                inserts-lt (fields sctlr_el1) (fields-well_described sctlr_el1)
                  ((sctlr_el1_m, 1) ∷ []) (c.reg sctlr_el1) on r.sctlr_word);
            daif_word = rw (done.2.3 daif (omega arith) (omega arith) (omega arith)) r.daif_word;
            switched =
                rw (done.2.2)
                  (sctlr_reads ((sctlr_el1_m, 1) ∷ []) (c.reg sctlr_el1) on r.sctlr_word);
            attributes = λ e. rw (done.2.0) (mair-Reads (c.reg mair_el1) r.mair_word);
            control = λ e. rw (done.2.1) (tcr-Reads (c.reg tcr_el1) r.tcr_word);
            lower = done.2.3 ttbr0_el1 (omega arith) (omega arith) (omega arith) ∙ r.lower;
            upper = done.2.3 ttbr1_el1 (omega arith) (omega arith) (omega arith) ∙ r.upper;
            taken = rw (done.2.3 daif (omega arith) (omega arith) (omega arith)) r.taken;
            events = done.2.4 ∙ ap (λ (l : List Event). l ++ isb ∷ isb ∷ isb ∷ []) r.events;
          },
        )

    disable_page-Represents :
        (c : Core) (m : Meaning)
        → Represents c m
        → (c' : Core) × (disable_page c ≡ some (tt, c')) × Represents c' (meant disabling m)
    unfolding meant
    disable_page-Represents c m r =
        let done = disable_page-eq c core.sctlr_kept r.sctlr_word in
        (
          done.0,
          done.1,
          record {
            mair_word = rw (done.2.1 mair_el1 (omega arith)) r.mair_word;
            tcr_word = rw (done.2.1 tcr_el1 (omega arith)) r.tcr_word;
            sctlr_word = rw (done.2.0) (
                inserts-lt (fields sctlr_el1) (fields-well_described sctlr_el1) sctlr_clears
                  (c.reg sctlr_el1) sctlr_clears-Fits r.sctlr_word);
            daif_word = rw (done.2.1 daif (omega arith)) r.daif_word;
            switched =
                rw (done.2.0)
                  (sctlr_reads sctlr_clears (c.reg sctlr_el1) sctlr_clears-Fits r.sctlr_word);
            attributes = λ e. cc;
            control = λ e. cc;
            lower = done.2.1 ttbr0_el1 (omega arith) ∙ r.lower;
            upper = done.2.1 ttbr1_el1 (omega arith) ∙ r.upper;
            taken = rw (done.2.1 daif (omega arith)) r.taken;
            events =
                done.2.2
                ∙ ap (λ (l : List Event). l ++ isb ∷ dsb_sy ∷ tlbi_vmalle1 ∷ dsb_sy ∷ isb ∷ [])
                    r.events;
          },
        )

    -- A core that differs in DAIF only.
    daif-Represents :
        (c : Core) (m : Meaning) (v : ℕ) (b : Bool)
        → Represents c m
        → v / 2 ^ 10 ≡ c.reg daif / 2 ^ 10
        → v % 2 ^ 6 ≡ c.reg daif % 2 ^ 6
        → (v / 2 ^ 7 % 2 == 0 && v / 2 ^ 6 % 2 == 0) ≡ b
        → Represents (put daif v c) (record m { interrupts = b })
    daif-Represents c m v b r high low e =
        let stored = core.daif_kept (c.reg daif) v (sym high) (sym low) in
        record {
          mair_word = r.mair_word;
          tcr_word = r.tcr_word;
          sctlr_word = r.sctlr_word;
          daif_word = rw stored (omega (arith, r.daif_word));
          switched = r.switched;
          attributes = r.attributes;
          control = r.control;
          lower = r.lower;
          upper = r.upper;
          taken = rw stored e;
          events = r.events;
        }

    events-Represents :
        (c : Core) (m : Meaning) (es : List Event)
        → Represents c m
        → Represents (with_events c es) (record m { executed = m.executed ++ es })
    events-Represents c m es r = record {
      mair_word = r.mair_word;
      tcr_word = r.tcr_word;
      sctlr_word = r.sctlr_word;
      daif_word = r.daif_word;
      switched = r.switched;
      attributes = r.attributes;
      control = r.control;
      lower = r.lower;
      upper = r.upper;
      taken = r.taken;
      events = ap (λ (l : List Event). l ++ es) r.events;
    }

    abbrev Performs : Call → Core → Meaning → Type 0
    Performs call c m =
        (c' : Core) × (perform call c ≡ some (tt, c')) × Represents c' (meant call m)

    perform-Represents :
        (call : Call) (c : Core) (m : Meaning)
        → Represents c m
        → Words (call ∷ [])
        → Performs call c m
    unfolding perform meant flush_tlb_all flush_tlb_address set_page_directory write
    perform-Represents enabling c m r words = enable_page-Represents c m r
    perform-Represents disabling c m r words = disable_page-Represents c m r
    perform-Represents allowing c m r words =
        let done = mask_switch c core.daif_kept r.daif_word in
        (
          put daif done.0 c,
          done.2,
          daif-Represents c m done.0 true r (omega (arith, done.6)) (omega (arith, done.6))
              (ground (arith, done.6)),
        )
    perform-Represents forbidding c m r words =
        let done = mask_switch c core.daif_kept r.daif_word in
        (
          put daif done.1 c,
          done.4,
          daif-Represents c m done.1 false r (omega (arith, done.6, done.7))
              (omega (arith, done.6, done.7)) (ground (arith, done.6, done.7)),
        )
    perform-Represents flushing c m r words = (
      with_events c (dsb_sy ∷ tlbi_vmalle1is ∷ dsb_sy ∷ isb ∷ []),
      flush_tlb_all-eq c,
      events-Represents c m _ r,
    )
    perform-Represents (flushing_address virtual_addr) c m r words = (
      with_events c (dsb_sy ∷ tlbi_vae1is (virtual_addr / 2 ^ 12) ∷ dsb_sy ∷ isb ∷ []),
      flush_tlb_address-eq virtual_addr 0 c,
      events-Represents c m _ r,
    )
    perform-Represents (directing pgd) c m r words = (
      with_events (put ttbr0_el1 pgd (put ttbr1_el1 pgd c)) (isb ∷ []),
      refl,
      record {
        mair_word = r.mair_word;
        tcr_word = r.tcr_word;
        sctlr_word = r.sctlr_word;
        daif_word = r.daif_word;
        switched = r.switched;
        attributes = r.attributes;
        control = r.control;
        lower = core.ttbr0_kept (c.reg ttbr0_el1) pgd words.0;
        upper = core.ttbr1_kept (c.reg ttbr1_el1) pgd words.0;
        taken = r.taken;
        events = ap (λ (l : List Event). l ++ isb ∷ []) r.events;
      },
    )

    -- On a core that stores what the calls write to it, and whose state means m, every sequence of
    -- calls with 64-bit directories runs to its end, in a core whose state means what the calls make
    -- of m: the paging mode, with the memory attributes and the translation control configured where
    -- paging is on, the page directory, the interrupt masks, and in their order the barriers and the
    -- TLB invalidations of the calls; `GetPageDirectory` and `GetInterruptStatus` then answer so.
    pub run-replay :
        (calls : List Call) (c : Core) (m : Meaning)
        → Represents c m
        → Words calls
        → (c' : Core) × (run calls c ≡ some (tt, c'))
          × Represents c' (replay calls m)
          × (get_page_directory c' ≡ some ((replay calls m).directory, c'))
          × (get_interrupt_status c' ≡ some ((replay calls m).interrupts, c'))
    unfolding run replay get_page_directory read
    run-replay [] c m r words = (
      c,
      refl,
      r,
      ap (λ (x : ℕ). some (x, c)) r.upper,
      get_interrupt_status-eq c ∙ ap (λ (b : Bool). some (b, c)) r.taken,
    )
    run-replay (call ∷ calls) c m r words =
        let first = perform-Represents call c m r (Words-head call calls words) in
        let rest = run-replay calls first.0 (meant call m) first.2 (Words-tail call calls words) in
        (rest.0, rw (first.1, ◌>>◌, ◌>>=◌) rest.1, rest.2, rest.3, rest.4)
