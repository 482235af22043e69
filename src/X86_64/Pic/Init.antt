-- ===== src/X86_64/Pic/Init.antt =====
-- The constructor of include/x86_64/pic.hpp on two controllers that keep to the documentation.
use cpu_io.Base.{ℕ, ◌/◌, ◌*◌, ◌<◌, ◌≡◌, ◌∙◌, ap, refl, arith, some, u8}
use cpu_io.X86_64.Bus.{Bus}
use cpu_io.X86_64.Pic.{make_pic}
use cpu_io.X86_64.Pic.Chip.{Chip, Controller}

module _ {D : Type 0} ⦃bus : Bus D⦄ {p q : ℕ} (k : Controller D bus p q) where
  -- One controller after the four initialisation words.
  initialised :
      (v line : ℕ) (d : D)
      → k.chip (bus.out_byte q 1 (bus.out_byte q line (bus.out_byte q v (bus.out_byte p 0x11 d))))
        ≡ record (k.chip (bus.out_byte p 0x11 d)) {
          awaiting = 0;
          vector = v / 8 * 8;
          cascade = line;
        }
  initialised v line d =
      let e2 = k.icw2 v (bus.out_byte p 0x11 d) (k.icw1 d) in
      let e3 =
        k.icw3 line (bus.out_byte q v (bus.out_byte p 0x11 d)) (ap (λ (c : Chip). c.awaiting) e2) in
      k.icw4 1 (bus.out_byte q line (bus.out_byte q v (bus.out_byte p 0x11 d)))
        (ap (λ (c : Chip). c.awaiting) e3)
      ∙ ap (λ (c : Chip). record c { awaiting = 0 })
          (e3 ∙ ap (λ (c : Chip). record c { awaiting = 1; cascade = line }) e2)

  pub masked :
      (v : ℕ) (d : D) (c : Chip)
      → k.chip d ≡ c
      → c.awaiting ≡ 0
      → k.chip (bus.out_byte q v d) ≡ record c { mask = v }
  masked v d c e a =
      k.ocw1 v d (ap (λ (c : Chip). c.awaiting) e ∙ a) ∙ ap (λ (c : Chip). record c { mask = v }) e

module _ {D : Type 0} ⦃bus : Bus D⦄ (m : Controller D bus 0x20 0x21)
    (s : Controller D bus 0xA0 0xA1) where
  -- The constructor leaves both controllers initialised and with every line masked; the master's
  -- vectors start at the first offset, rounded down to a multiple of 8, and its line 2 has the slave, the slave's vectors start at
  -- the second offset, rounded down, and it knows its line.
  pub make_pic_lem :
      (offset1 offset2 : ℕ) (d : D)
      → offset1 < 256
      → offset2 < 256
      → (d' : D) × (make_pic offset1 offset2 d
          ≡ some (record { offset1 = offset1; offset2 = offset2 }, d'))
        × ((m.chip d').awaiting ≡ 0)
        × ((m.chip d').vector ≡ offset1 / 8 * 8)
        × ((m.chip d').cascade ≡ 4)
        × ((m.chip d').mask ≡ 0xFF)
        × ((s.chip d').awaiting ≡ 0)
        × ((s.chip d').vector ≡ offset2 / 8 * 8)
        × ((s.chip d').cascade ≡ 2)
        × ((s.chip d').mask ≡ 0xFF)
  unfolding make_pic
  make_pic_lem offset1 offset2 d lt1 lt2 =
      let u1 : u8 offset1 ≡ offset1 = omega arith in
      let u2 : u8 offset2 ≡ offset2 = omega arith in
      (
        at_end,
        rw (u1, u2) refl,
        ap (λ (c : Chip). c.awaiting) master,
        ap (λ (c : Chip). c.vector) master,
        ap (λ (c : Chip). c.cascade) master,
        ap (λ (c : Chip). c.mask) master,
        ap (λ (c : Chip). c.awaiting) slave,
        ap (λ (c : Chip). c.vector) slave,
        ap (λ (c : Chip). c.cascade) slave,
        ap (λ (c : Chip). c.mask) slave,
      )
    where
      words : ℕ → ℕ → ℕ → ℕ → D → D
      words p q v line d =
          bus.out_byte q 1 (bus.out_byte q line (bus.out_byte q v (bus.out_byte p 0x11 d)))

      d1 : D
      d1 = words 0x20 0x21 offset1 4 d

      d2 : D
      d2 = words 0xA0 0xA1 offset2 2 d1

      at_end : D
      at_end = bus.out_byte 0xA1 0xFF (bus.out_byte 0x21 0xFF d2)

      master : m.chip at_end ≡ record (m.chip (bus.out_byte 0x20 0x11 d)) {
        awaiting = 0;
        vector = offset1 / 8 * 8;
        cascade = 4;
        mask = 0xFF;
      }
      master =
          m.elsewhere 0xA1 0xFF _ (ground arith) (ground arith)
          ∙ masked m 0xFF d2 _
              (m.elsewhere 0xA1 1 _ (ground arith) (ground arith)
                ∙ m.elsewhere 0xA1 2 _ (ground arith) (ground arith)
                ∙ m.elsewhere 0xA1 offset2 _ (ground arith) (ground arith)
                ∙ m.elsewhere 0xA0 0x11 _ (ground arith) (ground arith)
                ∙ initialised m offset1 4 d)
              refl

      slave : s.chip at_end ≡ record (s.chip (bus.out_byte 0xA0 0x11 d1)) {
        awaiting = 0;
        vector = offset2 / 8 * 8;
        cascade = 2;
        mask = 0xFF;
      }
      slave =
          masked s 0xFF _ _
            (s.elsewhere 0x21 0xFF _ (ground arith) (ground arith) ∙ initialised s offset2 2 d1)
            refl
