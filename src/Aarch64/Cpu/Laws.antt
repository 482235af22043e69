-- ===== src/Aarch64/Cpu/Laws.antt =====
-- The interrupt switch, the core id and the floating-point switch of include/aarch64/cpu.hpp.
use cpu_io.Base.{
  ℕ, ◌+◌, ◌*◌, ◌/◌, ◌%◌, ◌^◌, ◌<◌, ◌≡◌, inl, inr, Bool-cases, Bool, true, false, arith, ◌∙◌, ap,
  some, refl, ◌&&◌, ◌==◌, ◌!=◌,
}
use cpu_io.RegisterInfo.{cast, get_value, Field, field, uint8}
use cpu_io.RegisterInfo.Laws.{IsRun, get_value-eq, insert-eq, bit_or-mask, bit_and-not-mask}
use cpu_io.Aarch64.Machine.{daif, mpidr_el1, Stores, Core, put, ◌>>=◌}
use cpu_io.Aarch64.Info.{daif_i, daif_f, mpidr_el1_aff0}
use cpu_io.Aarch64.Field.Update.{get-eq, field-IsRun}
use cpu_io.Aarch64.ReadWrite.{set_bits_imm, clear_bits_imm}
use cpu_io.Aarch64.Cpu.{
  get_interrupt_status, get_current_core_id, enable_interrupt, disable_interrupt,
}

-- The status is that bits 6 and 7 of DAIF, the masks of fast and normal interrupts, are both zero.
pub get_interrupt_status-eq :
    (c : Core)
    → get_interrupt_status c ≡ some (c.reg daif / 2 ^ 7 % 2 == 0 && c.reg daif / 2 ^ 6 % 2 == 0, c)
unfolding get_interrupt_status cast
get_interrupt_status-eq c =
    let i_value =
      get_value-eq daif_i (field-IsRun daif daif_i (inr (inr (inl refl)))) (c.reg daif) in
    let f_value =
      get_value-eq daif_f (field-IsRun daif daif_f (inr (inr (inr (inl refl))))) (c.reg daif) in
    elim (Bool-cases (get_value daif_i (c.reg daif) != 0)) [
      | inl e ↦ rw (get-eq daif daif_i c refl, ◌>>=◌, e) (ground arith)
      | inr e ↦
          rw (get-eq daif daif_i c refl, ◌>>=◌, e)
            (rw (get-eq daif daif_f c refl, ◌>>=◌) (ground arith))
    ]

pub get_current_core_id_lem : (c : Core) → get_current_core_id c ≡ some (c.reg mpidr_el1 % 256, c)
unfolding get_current_core_id cast
get_current_core_id_lem c =
    get-eq mpidr_el1 mpidr_el1_aff0 c refl
    ∙ ap (λ (t : ℕ). some (t, c))
        (omega (
          arith,
          get_value-eq mpidr_el1_aff0
              (field-IsRun mpidr_el1 mpidr_el1_aff0 (inr (inr (inr (inr (inr (inl refl)))))))
              (c.reg mpidr_el1),
        ))

-- The four mask bits of DAIF, as one field.
abbrev masks : Field
masks = field 6 4 uint8

masks-IsRun : IsRun masks
masks-IsRun = record { fits = omega arith; ones = refl }

module _ ⦃w : Stores⦄ where
  -- On a core whose DAIF holds what is written to its four mask bits, after `EnableInterrupt` the
  -- status is true and after `DisableInterrupt` it is false; both set or clear bits 6 to 9 and change
  -- nothing else.
  pub mask_switch :
      (c : Core)
      → ((o v : ℕ) → o / 2 ^ 10 ≡ v / 2 ^ 10 → o % 2 ^ 6 ≡ v % 2 ^ 6 → w.value daif o v ≡ v)
      → c.reg daif < 2 ^ 64
      → (e : ℕ) × (d : ℕ) × (enable_interrupt c ≡ some (tt, put daif e c))
        × (get_interrupt_status (put daif e c) ≡ some (true, put daif e c))
        × (disable_interrupt c ≡ some (tt, put daif d c))
        × (get_interrupt_status (put daif d c) ≡ some (false, put daif d c))
        × (e ≡ c.reg daif / 2 ^ 10 * 2 ^ 10 + c.reg daif % 2 ^ 6)
        × (d ≡ e + 15 * 2 ^ 6)
  unfolding enable_interrupt disable_interrupt set_bits_imm clear_bits_imm
  mask_switch c stores lt = (
    on,
    off,
    ap (λ (v : ℕ). some (tt, put daif v c))
        (bit_and-not-mask masks masks-IsRun (c.reg daif) lt
          ∙ omega (arith, insert-eq masks masks-IsRun (c.reg daif) 0 lt)),
    get_interrupt_status-eq (put daif on c)
        ∙ ap (λ (b : Bool). some (b, put daif on c))
            (rw (stores (c.reg daif) on (omega arith) (omega arith)) (ground arith)),
    ap (λ (v : ℕ). some (tt, put daif v c))
        (bit_or-mask masks masks-IsRun (c.reg daif) lt
          ∙ omega (arith, insert-eq masks masks-IsRun (c.reg daif) 15 lt)),
    get_interrupt_status-eq (put daif off c)
        ∙ ap (λ (b : Bool). some (b, put daif off c))
            (rw (stores (c.reg daif) off (omega arith) (omega arith)) (ground arith)),
    refl,
    refl,
  )
    where
      on : ℕ
      on = c.reg daif / 2 ^ 10 * 2 ^ 10 + c.reg daif % 2 ^ 6

      off : ℕ
      off = on + 15 * 2 ^ 6
