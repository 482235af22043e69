-- ===== src/X86_64/Serial/Termination.antt =====
-- The polling loops of include/x86_64/serial.hpp end on a device that becomes ready.
use cpu_io.Base.{
  ℕ, zero, suc, ◌+◌, ◌≤◌, ◌<◌, ◌≡◌, inl, inr, Bool, true, false, Bool-cases, arith, refl, some, ap,
  ◌∙◌, bit_and, ltb, ◌!=◌, u16, u32, u8,
}
use cpu_io.X86_64.Bus.{Bus, M, inb, outb}
use cpu_io.X86_64.Serial
use cpu_io.X86_64.Serial.{Serial, serial_received, is_transmit_empty}
use cpu_io.X86_64.Serial.Laws.{Polls, ready, busy, read-Polls, write-Polls}

module _ {D : Type 0} where
  -- A step of a test: its answer, and the device after it.
  abbrev Answers : M D Bool → (D → Bool) → (D → D) → Type 0
  Answers test answer next = (d : D) → test d ≡ some (answer d, next d)

  -- A test whose negative answers lower a measure is positive after at most so many of them.
  Polls-end :
      (test : M D Bool) (answer : D → Bool) (next : D → D) (measure : D → ℕ)
      → Answers test answer next
      → ((d : D) → answer d ≡ false → measure (next d) < measure d)
      → (bound : ℕ) (d : D) → measure d ≤ bound
      → (n : ℕ) × (e : D) × Polls test n d e × (n ≤ bound)
  Polls-end test answer next measure says lowers zero d le = elim (Bool-cases (answer d)) [
    | inl e ↦ (zero, next d, ready (says d ∙ ap (λ (b : Bool). some (b, next d)) e), omega arith)
    | inr e ↦ absurd (omega (arith, lowers d e))
  ]
  Polls-end test answer next measure says lowers (suc bound) d le =
      let rest = Polls-end test answer next measure says lowers bound (next d) in
      elim (Bool-cases (answer d)) [
        | inl e ↦
            (zero, next d, ready (says d ∙ ap (λ (b : Bool). some (b, next d)) e), omega arith)
        | inr e ↦
            let later = rest (omega (arith, lowers d e)) in
            (
              suc later.0,
              later.1,
              busy (says d ∙ ap (λ (b : Bool). some (b, next d)) e) later.2,
              omega (arith, later.3),
            )
      ]

module _ {D : Type 0} ⦃bus : Bus D⦄ where
  -- A read of the line status register.
  abbrev pub status : Serial → D → ℕ × D
  status serial d = bus.in_byte (u16 (u32 (serial.port + 5))) d

  -- While the bits of the mask are zero in the line status, a read of it lowers the measure.
  abbrev pub Wears : Serial → ℕ → (D → ℕ) → Type 0
  Wears serial mask measure =
      (d : D) → bit_and (u8 (status serial d).0) mask ≡ 0 → measure (status serial d).1 < measure d

  -- On a device whose line status becomes ready, as shown by measures that its negative polls lower,
  -- `Read` and `Write` end, with fuel above the measure: after at most so many negative polls, with
  -- the byte read from or written to the device that the positive poll leaves.
  pub operations_end :
      (serial : Serial) (fuel byte : ℕ) (d : D) (received empty : D → ℕ)
      → Wears serial 1 received
      → Wears serial 0x20 empty
      → received d < fuel
      → empty d < fuel
      → (n : ℕ) × (e : D) × (m : ℕ) × (g : D) × Polls (serial_received serial) n d e
        × (n ≤ received d)
        × Polls (is_transmit_empty serial) m d g
        × (m ≤ empty d)
        × (Serial.read serial fuel d ≡ inb serial.port e)
        × (Serial.write serial fuel byte d ≡ outb serial.port byte g)
  unfolding serial_received is_transmit_empty
  operations_end serial fuel byte d received empty wears_received wears_empty more_received
        more_empty =
      let input =
        Polls-end (serial_received serial) (λ x. bit_and (u8 (status serial x).0) 1 != 0)
          (λ x. (status serial x).1) received (λ x. refl) (λ x e. wears_received x (ground arith))
          (received d) d (omega arith) in
      let output =
        Polls-end (is_transmit_empty serial) (λ x. bit_and (u8 (status serial x).0) 0x20 != 0)
          (λ x. (status serial x).1) empty (λ x. refl) (λ x e. wears_empty x (ground arith))
          (empty d) d (omega arith) in
      (
        input.0,
        input.1,
        output.0,
        output.1,
        input.2,
        input.3,
        output.2,
        output.3,
        (read-Polls serial input.0 fuel d input.1 input.2
            ∙ rw (below input.0 input.3 more_received) refl),
        (write-Polls serial output.0 fuel byte d output.1 output.2
            ∙ rw (below output.0 output.3 more_empty) refl),
      )
    where
      below : {measure : ℕ} (n : ℕ) → n ≤ measure → measure < fuel → ltb n fuel ≡ true
      below n le lt = ground arith
