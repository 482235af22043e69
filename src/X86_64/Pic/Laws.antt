-- ===== src/X86_64/Pic/Laws.antt =====
-- The operations of include/x86_64/pic.hpp on two controllers that keep to the documentation.
use cpu_io.Base.{
  ℕ, ◌+◌, ◌-◌, ◌*◌, ◌%◌, ◌^◌, ◌<◌, ◌≡◌, ◌∙◌, ap, refl, arith, some, inl, inr, Bool-cases, leb, ◌==◌,
  if◌then◌else◌, bit_and, bit_or, u8, u16, bit_or-add,
}
use cpu_io.X86_64.Pic.Mask.{enabled_mask, disabled_mask}
use cpu_io.X86_64.Bus.{Bus}
use cpu_io.X86_64.Pic.{Pic, enable, disable, clear, get_irr, get_isr, get_irq_reg}
use cpu_io.X86_64.Pic.Chip.{Chip, Controller, end_of_interrupt}

module _ {D : Type 0} ⦃bus : Bus D⦄ (m : Controller D bus 0x20 0x21)
    (s : Controller D bus 0xA0 0xA1) where
  -- `Enable` and `Disable` of a line of an initialised controller write its mask with exactly the
  -- line's bit zero or one; the number says which controller, and the other one is left alone.
  pub switch_line :
      (pic : Pic) (irq : ℕ) (d : D)
      → (m.chip d).awaiting ≡ 0
      → (s.chip d).awaiting ≡ 0
      → (m.chip d).mask < 256
      → (s.chip d).mask < 256
      → (e : D) × (f : D) × (enable pic irq d ≡ some (tt, e))
        × (disable pic irq d ≡ some (tt, f))
        × (m.chip e ≡ (
            if leb pic.offset2 irq
            then m.chip d
            else record (m.chip d) { mask = bit_and (m.chip d).mask (255 - 2 ^ (irq % 8)) }))
        × (s.chip e ≡ (
            if leb pic.offset2 irq
            then record (s.chip d) { mask = bit_and (s.chip d).mask (255 - 2 ^ (irq % 8)) }
            else s.chip d))
        × (m.chip f ≡ (
            if leb pic.offset2 irq
            then m.chip d
            else record (m.chip d) { mask = bit_or (m.chip d).mask (2 ^ (irq % 8)) }))
        × (s.chip f ≡ (
            if leb pic.offset2 irq
            then record (s.chip d) { mask = bit_or (s.chip d).mask (2 ^ (irq % 8)) }
            else s.chip d))
  unfolding enable disable
  switch_line pic irq d ma sa ml sl =
      let lt8 : irq % 8 < 8 = omega arith in
      elim (Bool-cases (leb pic.offset2 irq)) [
        | inl e ↦ (
          bus.out_byte 0xA1 (bit_and (s.chip d).mask (255 - 2 ^ (irq % 8))) d,
          bus.out_byte 0xA1 (bit_or (s.chip d).mask (2 ^ (irq % 8))) d,
          rw (e, s.read_data d sa, enabled_mask (s.chip d).mask (irq % 8) sl lt8) refl,
          rw (e, s.read_data d sa, disabled_mask (s.chip d).mask (irq % 8) sl lt8) refl,
          rw e (m.elsewhere 0xA1 _ d (ground arith) (ground arith)),
          rw e (s.ocw1 _ d sa),
          rw e (m.elsewhere 0xA1 _ d (ground arith) (ground arith)),
          rw e (s.ocw1 _ d sa),
        )
        | inr e ↦ (
          bus.out_byte 0x21 (bit_and (m.chip d).mask (255 - 2 ^ (irq % 8))) d,
          bus.out_byte 0x21 (bit_or (m.chip d).mask (2 ^ (irq % 8))) d,
          rw (e, m.read_data d ma, enabled_mask (m.chip d).mask (irq % 8) ml lt8) refl,
          rw (e, m.read_data d ma, disabled_mask (m.chip d).mask (irq % 8) ml lt8) refl,
          rw e (m.ocw1 _ d ma),
          rw e (s.elsewhere 0x21 _ d (ground arith) (ground arith)),
          rw e (m.ocw1 _ d ma),
          rw e (s.elsewhere 0x21 _ d (ground arith) (ground arith)),
        )
      ]

  -- `Clear` ends the interrupt at the controller that the number belongs to, and leaves the other
  -- one alone: for an interrupt of the slave, the master is not told.
  pub clear_lem :
      (pic : Pic) (irq : ℕ) (d : D)
      → (d' : D) × (clear pic irq d ≡ some (tt, d'))
        × (m.chip d' ≡ (if leb pic.offset2 irq then m.chip d else end_of_interrupt (m.chip d)))
        × (s.chip d' ≡ (if leb pic.offset2 irq then end_of_interrupt (s.chip d) else s.chip d))
  unfolding clear
  clear_lem pic irq d = elim (Bool-cases (leb pic.offset2 irq)) [
    | inl e ↦ (
      bus.out_byte 0xA0 0x20 d,
      rw e refl,
      rw e (m.elsewhere 0xA0 0x20 d (ground arith) (ground arith)),
      rw e (s.eoi d),
    )
    | inr e ↦ (
      bus.out_byte 0x20 0x20 d,
      rw e refl,
      rw e (m.eoi d),
      rw e (s.elsewhere 0x20 0x20 d (ground arith) (ground arith)),
    )
  ]

  -- `GetIrr` and `GetIsr` give the request and the in-service registers of both controllers, the
  -- slave's in the high byte.
  pub get_irq_lem :
      (d : D)
      → (m.chip d).requests < 256
      → (s.chip d).requests < 256
      → (m.chip d).in_service < 256
      → (s.chip d).in_service < 256
      → (e : D) × (f : D) × (get_irr d ≡ some ((s.chip d).requests * 256 + (m.chip d).requests, e))
        × (get_isr d ≡ some ((s.chip d).in_service * 256 + (m.chip d).in_service, f))
  unfolding get_irr get_isr
  get_irq_lem d mr sr mi si = (
    both 0x0A d,
    both 0x0B d,
    get_irq_reg-eq 0x0A d (s.chip d).requests (m.chip d).requests
        (s.read_command (both 0x0A d)
          ∙ ap (λ (c : Chip). (shown c, both 0x0A d)) (slave_selects 0x0A d (s.select_irr _)))
        (m.read_command (both 0x0A d)
          ∙ ap (λ (c : Chip). (shown c, both 0x0A d)) (master_selects 0x0A d (m.select_irr d)))
        sr mr,
    get_irq_reg-eq 0x0B d (s.chip d).in_service (m.chip d).in_service
        (s.read_command (both 0x0B d)
          ∙ ap (λ (c : Chip). (shown c, both 0x0B d)) (slave_selects 0x0B d (s.select_isr _)))
        (m.read_command (both 0x0B d)
          ∙ ap (λ (c : Chip). (shown c, both 0x0B d)) (master_selects 0x0B d (m.select_isr d)))
        si mi,
  )
    where
      both : ℕ → D → D
      both v d = bus.out_byte 0xA0 (u8 v) (bus.out_byte 0x20 (u8 v) d)

      shown : Chip → ℕ
      shown c = if c.selected == 0x0A then c.requests else c.in_service

      get_irq_reg-eq :
          (v : ℕ) (d : D) (high low : ℕ)
          → bus.in_byte 0xA0 (both v d) ≡ (high, both v d)
          → bus.in_byte 0x20 (both v d) ≡ (low, both v d)
          → high < 256
          → low < 256
          → get_irq_reg v d ≡ some (high * 256 + low, both v d)
      get_irq_reg-eq v d high low eh el lh ll =
          unfold get_irq_reg in
          let joined : u16 (bit_or (u8 high * 2 ^ 8) (u8 low)) ≡ high * 256 + low =
            ground (arith, bit_or-add 8 high low ll) in
          rw (eh, el, joined) refl

      slave_selects :
          (v : ℕ) (d : D)
          → s.chip (both v d) ≡ record (s.chip (bus.out_byte 0x20 (u8 v) d)) { selected = u8 v }
          → s.chip (both v d) ≡ record (s.chip d) { selected = u8 v }
      slave_selects v d e =
          e
          ∙ ap (λ (c : Chip). record c { selected = u8 v })
              (s.elsewhere 0x20 (u8 v) d (ground arith) (ground arith))

      master_selects :
          (v : ℕ) (d : D)
          → m.chip (bus.out_byte 0x20 (u8 v) d) ≡ record (m.chip d) { selected = u8 v }
          → m.chip (both v d) ≡ record (m.chip d) { selected = u8 v }
      master_selects v d e = m.elsewhere 0xA0 (u8 v) _ (ground arith) (ground arith) ∙ e
