-- ===== src/Aarch64/Translation/Meaning.antt =====
-- Sequences of calls of include/aarch64/cpu.hpp and include/aarch64/virtual_memory.hpp against what
-- they mean: whether paging is on, the page directory, whether interrupts are taken, and the barriers
-- and TLB invalidations executed.
use cpu_io.Base.{
  ℕ, ◌/◌, ◌%◌, ◌^◌, ◌<◌, ◌≡◌, inl, inr, Bool, true, false, ◌&&◌, ◌==◌, List, [], ◌∷◌, ◌++◌, arith,
  refl, if◌then◌else◌,
}
use cpu_io.RegisterInfo.{Field, get_value}
use cpu_io.RegisterInfo.Sequence.{Fits, latest, inserts, get_value-inserts}
use cpu_io.Aarch64.Machine.{
  daif, mair_el1, tcr_el1, sctlr_el1, ttbr0_el1, ttbr1_el1, Event, isb, dsb_sy, tlbi_vmalle1,
  tlbi_vmalle1is, tlbi_vae1is, Stores, Core, M, pure, ◌>>◌,
}
use cpu_io.Aarch64.Info.{
  mair_el1_aff0, mair_el1_aff1, mair_el1_aff2, mair_el1_aff3, tcr_el1_t0sz, tcr_el1_t1sz,
  tcr_el1_tg0, tcr_el1_tg1, tcr_el1_ips,
}
use cpu_io.Aarch64.Info.System.{sctlr_el1_m}
use cpu_io.Aarch64.Info.Fields.{fields}
use cpu_io.Aarch64.Field.Update.{fields-well_described}
use cpu_io.Aarch64.Field.Sequence.{KeepsFields}
use cpu_io.Aarch64.Cpu.{enable_interrupt, disable_interrupt}
use cpu_io.Aarch64.Translation.{
  enable_page, disable_page, set_page_directory, flush_tlb_address, flush_tlb_all,
}
use cpu_io.Aarch64.Translation.Laws.{mair_writes, tcr_writes, mair_writes-Fits, tcr_writes-Fits}

pub data Call : Type 0 where
  enabling disabling allowing forbidding flushing : Call
  flushing_address directing : ℕ → Call

-- What the calls mean; executed are the barriers and the TLB invalidations.
pub record Meaning : Type 0 where
  pub paging : Bool
  pub directory : ℕ
  pub interrupts : Bool
  pub executed : List Event

abbrev executing : List Event → Meaning → Meaning
executing es m = record m { executed = m.executed ++ es }

unfoldable pub meant : Call → Meaning → Meaning
meant enabling m = executing (isb ∷ isb ∷ isb ∷ []) (record m { paging = true })
meant disabling m =
    executing (isb ∷ dsb_sy ∷ tlbi_vmalle1 ∷ dsb_sy ∷ isb ∷ []) (record m { paging = false })
meant allowing m = record m { interrupts = true }
meant forbidding m = record m { interrupts = false }
meant (directing pgd) m = executing (isb ∷ []) (record m { directory = pgd })
meant flushing m = executing (dsb_sy ∷ tlbi_vmalle1is ∷ dsb_sy ∷ isb ∷ []) m
meant (flushing_address virtual_addr) m =
    executing (dsb_sy ∷ tlbi_vae1is (virtual_addr / 2 ^ 12) ∷ dsb_sy ∷ isb ∷ []) m

unfoldable pub replay : List Call → Meaning → Meaning
replay [] m = m
replay (call ∷ calls) m = replay calls (meant call m)

-- The arguments are 64-bit words.
abbrev pub Words : List Call → Type 0
Words [] = Unit {0}
Words (directing pgd ∷ calls) = (pgd < 2 ^ 64) × Words calls
Words (_ ∷ calls) = Words calls

-- The register reads as each listed value through its field.
abbrev pub Reads : List (Field × ℕ) → ℕ → Type 0
Reads [] value = Unit {0}
Reads ((f, v) ∷ ws) value = (get_value f value ≡ v) × Reads ws value

-- The core's registers mean this, and where paging is on, the memory attributes and the translation
-- control are the configured ones.
pub record Represents (c : Core) (m : Meaning) : Type 0 where
  pub mair_word : c.reg mair_el1 < 2 ^ 64
  pub tcr_word : c.reg tcr_el1 < 2 ^ 64
  pub sctlr_word : c.reg sctlr_el1 < 2 ^ 64
  pub daif_word : c.reg daif < 2 ^ 64
  pub switched : get_value sctlr_el1_m (c.reg sctlr_el1) ≡ (if m.paging then 1 else 0)
  pub attributes : m.paging ≡ true → Reads mair_writes (c.reg mair_el1)
  pub control : m.paging ≡ true → Reads (tcr_writes 16 16) (c.reg tcr_el1)
  pub lower : c.reg ttbr0_el1 ≡ m.directory
  pub upper : c.reg ttbr1_el1 ≡ m.directory
  pub taken : (c.reg daif / 2 ^ 7 % 2 == 0 && c.reg daif / 2 ^ 6 % 2 == 0) ≡ m.interrupts
  pub events : c.events ≡ m.executed

pub mair-Reads : (value : ℕ) → value < 2 ^ 64 → Reads mair_writes (inserts mair_writes value)
mair-Reads value lt =
    let mair_fits = mair_writes-Fits in
    (
      get_value-inserts (fields mair_el1) (fields-well_described mair_el1) mair_el1_aff0 mair_writes
          value (inr (inr (inr (inr (inr (inr (inr (inl refl)))))))) mair_fits lt,
      (
        get_value-inserts (fields mair_el1) (fields-well_described mair_el1) mair_el1_aff1
            mair_writes value (inr (inr (inr (inr (inr (inr (inl refl))))))) mair_fits lt,
        (
          get_value-inserts (fields mair_el1) (fields-well_described mair_el1) mair_el1_aff2
              mair_writes value (inr (inr (inr (inr (inr (inl refl)))))) mair_fits lt,
          (
            get_value-inserts (fields mair_el1) (fields-well_described mair_el1) mair_el1_aff3
                mair_writes value (inr (inr (inr (inr (inl refl))))) mair_fits lt,
            tt,
          ),
        ),
      ),
    )

pub tcr-Reads :
    (value : ℕ) → value < 2 ^ 64 → Reads (tcr_writes 16 16) (inserts (tcr_writes 16 16) value)
tcr-Reads value lt =
    let tcr_fits = tcr_writes-Fits 16 16 (omega arith) (omega arith) in
    (
      get_value-inserts (fields tcr_el1) (fields-well_described tcr_el1) tcr_el1_t0sz
          (tcr_writes 16 16) value (inr (inr (inr (inr (inl refl))))) tcr_fits lt,
      (
        get_value-inserts (fields tcr_el1) (fields-well_described tcr_el1) tcr_el1_t1sz
            (tcr_writes 16 16) value (inr (inr (inl refl))) tcr_fits lt,
        (
          get_value-inserts (fields tcr_el1) (fields-well_described tcr_el1) tcr_el1_tg0
              (tcr_writes 16 16) value (inr (inr (inr (inl refl)))) tcr_fits lt,
          (
            get_value-inserts (fields tcr_el1) (fields-well_described tcr_el1) tcr_el1_tg1
                (tcr_writes 16 16) value (inr (inl refl)) tcr_fits lt,
            (
              get_value-inserts (fields tcr_el1) (fields-well_described tcr_el1) tcr_el1_ips
                  (tcr_writes 16 16) value (inl refl) tcr_fits lt,
              tt,
            ),
          ),
        ),
      ),
    )

-- After a list of writes to SCTLR_EL1 that ends by reading m.
pub sctlr_reads :
    (ws : List (Field × ℕ)) (value : ℕ)
    → Fits (fields sctlr_el1) ws
    → value < 2 ^ 64
    → get_value sctlr_el1_m (inserts ws value) ≡ latest sctlr_el1_m ws (get_value sctlr_el1_m value)
sctlr_reads ws value fits lt =
    get_value-inserts (fields sctlr_el1) (fields-well_described sctlr_el1) sctlr_el1_m ws value
      (inl refl) fits lt

module _ ⦃w : Stores⦄ where
  unfoldable pub perform : Call → M (Unit {0})
  perform enabling = enable_page
  perform disabling = disable_page
  perform allowing = enable_interrupt
  perform forbidding = disable_interrupt
  perform flushing = flush_tlb_all
  perform (flushing_address virtual_addr) = flush_tlb_address virtual_addr 0
  perform (directing pgd) = set_page_directory pgd

  unfoldable pub run : List Call → M (Unit {0})
  run [] = pure tt
  run (call ∷ calls) = perform call >> run calls

  -- The core stores what differs from a translation register in one described field only, every
  -- directory, and every value of DAIF with other mask bits.
  pub record Translates : Type 0 where
    pub mair_kept : KeepsFields mair_el1
    pub tcr_kept : KeepsFields tcr_el1
    pub sctlr_kept : KeepsFields sctlr_el1
    pub ttbr0_kept : (o v : ℕ) → v < 2 ^ 64 → w.value ttbr0_el1 o v ≡ v
    pub ttbr1_kept : (o v : ℕ) → v < 2 ^ 64 → w.value ttbr1_el1 o v ≡ v
    pub daif_kept :
        (o v : ℕ) → o / 2 ^ 10 ≡ v / 2 ^ 10 → o % 2 ^ 6 ≡ v % 2 ^ 6 → w.value daif o v ≡ v
