-- ===== src/Aarch64/Translation/Laws.antt =====
-- The translation registers after the functions of include/aarch64/virtual_memory.hpp.
use mathlib.Core.List.{append_assoc}
use cpu_io.Base.{
  ℕ, ◌/◌, ◌^◌, ◌<◌, ◌≡◌, ◌≢◌, inl, inr, List, [], ◌∷◌, ◌++◌, ap, ◌∙◌, arith, refl, some,
}
use cpu_io.RegisterInfo.{Field, insert}
use cpu_io.RegisterInfo.Sequence.{Fits, inserts}
use cpu_io.Aarch64.Machine.{
  Reg, index, mair_el1, tcr_el1, sctlr_el1, Stores, Core, Event, event, isb, dsb_sy, tlbi_vmalle1,
  tlbi_vmalle1is, tlbi_vae1is, put, ◌>>=◌, ◌>>◌,
}
use cpu_io.Aarch64.Machine.Events.{emits, emits-eq, with_events}
use cpu_io.Aarch64.Info.{
  mair_el1_aff0, mair_el1_aff1, mair_el1_aff2, mair_el1_aff3, tcr_el1_t0sz, tcr_el1_t1sz,
  tcr_el1_tg0, tcr_el1_tg1, tcr_el1_ips,
}
use cpu_io.Aarch64.Info.System.{sctlr_el1_m, sctlr_el1_c, sctlr_el1_i}
use cpu_io.Aarch64.Info.Fields.{fields}
use cpu_io.Aarch64.Field
use cpu_io.Aarch64.Field.Sequence.{
  KeepsFields, Inserts, edits-eq, write-Inserts, set-insert, clear-insert,
}
use cpu_io.Aarch64.Translation.{
  flush_tlb_all, flush_tlb_address, configure_mair, configure_tcr, enable_page, disable_page,
}

-- What `ConfigureMAIR` and `ConfigureTCR` write, in order.
abbrev pub mair_writes : List (Field × ℕ)
mair_writes =
    (mair_el1_aff0, 0x00)
    ∷ (mair_el1_aff1, 0x44)
    ∷ (mair_el1_aff2, 0xBB)
    ∷ (mair_el1_aff3, 0xFF)
    ∷ []

abbrev pub tcr_writes : ℕ → ℕ → List (Field × ℕ)
tcr_writes t0sz t1sz =
    (tcr_el1_t0sz, t0sz)
    ∷ (tcr_el1_t1sz, t1sz)
    ∷ (tcr_el1_tg0, 0)
    ∷ (tcr_el1_tg1, 2)
    ∷ (tcr_el1_ips, 5)
    ∷ []

abbrev pub sctlr_clears : List (Field × ℕ)
sctlr_clears = (sctlr_el1_m, 0) ∷ (sctlr_el1_c, 0) ∷ (sctlr_el1_i, 0) ∷ []

pub mair_writes-Fits : Fits (fields mair_el1) mair_writes
mair_writes-Fits = (
  inr (inr (inr (inr (inr (inr (inr (inl refl))))))),
  omega arith,
  (
    inr (inr (inr (inr (inr (inr (inl refl)))))),
    omega arith,
    (
      inr (inr (inr (inr (inr (inl refl))))),
      omega arith,
      (inr (inr (inr (inr (inl refl)))), omega arith, tt),
    ),
  ),
)

pub tcr_writes-Fits :
    (t0sz t1sz : ℕ) → t0sz < 64 → t1sz < 64 → Fits (fields tcr_el1) (tcr_writes t0sz t1sz)
tcr_writes-Fits t0sz t1sz l0 l1 = (
  inr (inr (inr (inr (inl refl)))),
  l0,
  (
    inr (inr (inl refl)),
    l1,
    (
      inr (inr (inr (inl refl))),
      omega arith,
      (inr (inl refl), omega arith, (inl refl, omega arith, tt)),
    ),
  ),
)

pub sctlr_clears-Fits : Fits (fields sctlr_el1) sctlr_clears
sctlr_clears-Fits =
    (inl refl, omega arith, (inr (inl refl), omega arith, (inr (inr (inl refl)), omega arith, tt)))

-- The register holds its old value with the writes made, all other registers are as before, and the
-- events follow those before.
abbrev pub Wrote : Reg → List (Field × ℕ) → List Event → Core → Core → Type 0
Wrote r ws es c c' =
    (c'.reg r ≡ inserts ws (c.reg r))
    × ((q : Reg) → index q ≢ index r → c'.reg q ≡ c.reg q)
    × (c'.events ≡ c.events ++ es)

pub flush_tlb_all-eq :
    (c : Core)
    → flush_tlb_all c ≡ some (tt, with_events c (dsb_sy ∷ tlbi_vmalle1is ∷ dsb_sy ∷ isb ∷ []))
unfolding flush_tlb_all
flush_tlb_all-eq c = emits-eq dsb_sy (tlbi_vmalle1is ∷ dsb_sy ∷ isb ∷ []) c

pub flush_tlb_address-eq :
    (virtual_addr asid : ℕ) (c : Core)
    → flush_tlb_address virtual_addr asid c
      ≡ some (tt, with_events c (dsb_sy ∷ tlbi_vae1is (virtual_addr / 2 ^ 12) ∷ dsb_sy ∷ isb ∷ []))
unfolding flush_tlb_address
flush_tlb_address-eq virtual_addr asid c =
    emits-eq dsb_sy (tlbi_vae1is (virtual_addr / 2 ^ 12) ∷ dsb_sy ∷ isb ∷ []) c

module _ ⦃w : Stores⦄ where
  configure_mair-eq :
      (c : Core)
      → KeepsFields mair_el1
      → c.reg mair_el1 < 2 ^ 64
      → (c' : Core) × (configure_mair c ≡ some (tt, c'))
        × Wrote mair_el1 mair_writes (isb ∷ []) c c'
  unfolding configure_mair
  configure_mair-eq c keeps lt =
      let run =
        edits-eq mair_el1 (Field.write mair_el1) mair_writes (event isb) c keeps mair_writes-Fits
          (write-Inserts mair_el1 mair_writes refl mair_writes-Fits) lt in
      (
        record run.0 { events = run.0.events ++ isb ∷ [] },
        run.1,
        (run.2.0, run.2.1, ap (λ (es : List Event). es ++ isb ∷ []) run.2.2),
      )

  configure_tcr-eq :
      (t0sz t1sz : ℕ) (c : Core)
      → t0sz < 64
      → t1sz < 64
      → KeepsFields tcr_el1
      → c.reg tcr_el1 < 2 ^ 64
      → (c' : Core) × (configure_tcr t0sz t1sz c ≡ some (tt, c'))
        × Wrote tcr_el1 (tcr_writes t0sz t1sz) (isb ∷ []) c c'
  unfolding configure_tcr
  configure_tcr-eq t0sz t1sz c l0 l1 keeps lt =
      let fits = tcr_writes-Fits t0sz t1sz l0 l1 in
      let run =
        edits-eq tcr_el1 (Field.write tcr_el1) (tcr_writes t0sz t1sz) (event isb) c keeps fits
          (write-Inserts tcr_el1 (tcr_writes t0sz t1sz) refl fits) lt in
      (
        record run.0 { events = run.0.events ++ isb ∷ [] },
        run.1,
        (run.2.0, run.2.1, ap (λ (es : List Event). es ++ isb ∷ []) run.2.2),
      )

  clears-Inserts : Inserts sctlr_el1 (λ f v. Field.clear sctlr_el1 f) sctlr_clears
  clears-Inserts = (
    λ c lt. clear-insert sctlr_el1 sctlr_el1_m c refl (inl refl) lt,
    (
      λ c lt. clear-insert sctlr_el1 sctlr_el1_c c refl (inr (inl refl)) lt,
      (λ c lt. clear-insert sctlr_el1 sctlr_el1_i c refl (inr (inr (inl refl))) lt, tt),
    ),
  )

  -- `DisablePage` clears the bits M, C and I of SCTLR_EL1 and no other, then drops the TLB between
  -- barriers.
  pub disable_page-eq :
      (c : Core)
      → KeepsFields sctlr_el1
      → c.reg sctlr_el1 < 2 ^ 64
      → (c' : Core) × (disable_page c ≡ some (tt, c'))
        × Wrote sctlr_el1 sctlr_clears (isb ∷ dsb_sy ∷ tlbi_vmalle1 ∷ dsb_sy ∷ isb ∷ []) c c'
  unfolding disable_page
  disable_page-eq c keeps lt =
      let run =
        edits-eq sctlr_el1 (λ f v. Field.clear sctlr_el1 f) sctlr_clears
          (emits isb (dsb_sy ∷ tlbi_vmalle1 ∷ dsb_sy ∷ isb ∷ [])) c keeps sctlr_clears-Fits
          clears-Inserts lt in
      (
        with_events run.0 (isb ∷ dsb_sy ∷ tlbi_vmalle1 ∷ dsb_sy ∷ isb ∷ []),
        run.1 ∙ emits-eq isb (dsb_sy ∷ tlbi_vmalle1 ∷ dsb_sy ∷ isb ∷ []) run.0,
        (
          run.2.0,
          run.2.1,
          ap (λ (es : List Event). es ++ isb ∷ dsb_sy ∷ tlbi_vmalle1 ∷ dsb_sy ∷ isb ∷ []) run.2.2,
        ),
      )

  -- The core after `EnablePage`.
  abbrev pub Enabled : Core → Core → Type 0
  Enabled c c' =
      (c'.reg mair_el1 ≡ inserts mair_writes (c.reg mair_el1))
      × (c'.reg tcr_el1 ≡ inserts (tcr_writes 16 16) (c.reg tcr_el1))
      × (c'.reg sctlr_el1 ≡ insert sctlr_el1_m (c.reg sctlr_el1) 1)
      × ((q : Reg) → index q ≢ 13 → index q ≢ 14 → index q ≢ 12 → c'.reg q ≡ c.reg q)
      × (c'.events ≡ c.events ++ isb ∷ isb ∷ isb ∷ [])

  pub enable_page-eq :
      (c : Core)
      → KeepsFields mair_el1
      → KeepsFields tcr_el1
      → KeepsFields sctlr_el1
      → c.reg mair_el1 < 2 ^ 64
      → c.reg tcr_el1 < 2 ^ 64
      → c.reg sctlr_el1 < 2 ^ 64
      → (c' : Core) × (enable_page c ≡ some (tt, c')) × Enabled c c'
  unfolding enable_page
  enable_page-eq c keeps_mair keeps_tcr keeps_sctlr mair tcr sctlr =
      let first = configure_mair-eq c keeps_mair mair in
      let same_tcr : first.0.reg tcr_el1 ≡ c.reg tcr_el1 = first.2.1 tcr_el1 (omega arith) in
      let second =
        configure_tcr-eq 16 16 first.0 (omega arith) (omega arith) keeps_tcr (rw same_tcr tcr) in
      let same_sctlr : second.0.reg sctlr_el1 ≡ c.reg sctlr_el1 =
        second.2.1 sctlr_el1 (omega arith) ∙ first.2.1 sctlr_el1 (omega arith) in
      let switched =
        set-insert sctlr_el1 sctlr_el1_m second.0 refl (inl refl) (rw same_sctlr sctlr) in
      (
        with_events (put sctlr_el1 (insert sctlr_el1_m (second.0.reg sctlr_el1) 1) second.0)
            (isb ∷ []),
        rw (first.1, ◌>>◌, ◌>>=◌) (rw (second.1, ◌>>◌, ◌>>=◌) (rw (switched, ◌>>◌, ◌>>=◌) refl)),
        (
          second.2.1 mair_el1 (omega arith) ∙ first.2.0,
          second.2.0 ∙ ap (inserts (tcr_writes 16 16)) same_tcr,
          rw same_sctlr (keeps_sctlr sctlr_el1_m (c.reg sctlr_el1) 1 (inl refl)),
          λ q not_mair not_tcr not_sctlr.
              ground (arith, second.2.1 q (ground arith), first.2.1 q (ground arith)),
          ap (λ (es : List Event). es ++ isb ∷ [])
                (second.2.2 ∙ ap (λ (es : List Event). es ++ isb ∷ []) first.2.2)
              ∙ append_assoc (c.events ++ isb ∷ []) (isb ∷ []) (isb ∷ [])
              ∙ append_assoc c.events (isb ∷ []) (isb ∷ isb ∷ []),
        ),
      )
