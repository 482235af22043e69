-- ===== src/X86_64/Serial/Laws.antt =====
-- The polling loops and the constructor of include/x86_64/serial.hpp.
use cpu_io.Base.{
  ℕ, zero, suc, ◌+◌, ◌^◌, ◌<◌, ◌≡◌, ◌∙◌, ap, refl, arith, none, some, Bool, true, false, ltb, ◌==◌,
  ◌!=◌, if◌then◌else◌, u8, u16, u32, Bool-cases, inl, inr,
}
use cpu_io.X86_64.Bus.{Bus, M, ◌>>=◌, ◌>>◌, inb, outb}
use cpu_io.X86_64.Serial.{Serial, make_serial, serial_received, is_transmit_empty, wait_until}
use cpu_io.X86_64.Serial
use cpu_io.X86_64.Serial.Uart.{Uart, UartState}

-- The test fails n times from the first state on and then succeeds, leaving the last state.
pub data Polls {D : Type 0} (test : M D Bool) : ℕ → D → D → Type 0 where
  ready : {d e : D} → test d ≡ some (true, e) → Polls test 0 d e
  busy :
      {n : ℕ} {d d' e : D} → test d ≡ some (false, d') → Polls test n d' e → Polls test (suc n) d e

module _ {D : Type 0} ⦃bus : Bus D⦄ where
  wait_until-eq :
      (test : M D Bool) (n fuel : ℕ) (d e : D)
      → Polls test n d e
      → wait_until test fuel d ≡ (if ltb n fuel then some (tt, e) else none)
  unfolding wait_until
  wait_until-eq test n zero d e p = ground arith
  wait_until-eq test zero (suc fuel) d e (ready r) = rw (r, ◌>>=◌) (ground arith)
  wait_until-eq test (suc n) (suc fuel) d e (busy b p) =
      let same : ltb (suc n) (suc fuel) ≡ ltb n fuel = ground arith in
      rw (b, ◌>>=◌, same) (wait_until-eq test n fuel _ e p)

  pub read-Polls :
      (serial : Serial) (n fuel : ℕ) (d e : D)
      → Polls (serial_received serial) n d e
      → Serial.read serial fuel d ≡ (if ltb n fuel then inb serial.port e else none)
  unfolding Serial.read
  read-Polls serial n fuel d e p =
      rw (◌>>◌, ◌>>=◌, wait_until-eq (serial_received serial) n fuel d e p)
        (elim (Bool-cases (ltb n fuel)) [ inl e ↦ rw e refl | inr e ↦ rw e refl ])

  pub write-Polls :
      (serial : Serial) (n fuel byte : ℕ) (d e : D)
      → Polls (is_transmit_empty serial) n d e
      → Serial.write serial fuel byte d ≡ (if ltb n fuel then outb serial.port byte e else none)
  unfolding Serial.write
  write-Polls serial n fuel byte d e p =
      rw (◌>>◌, ◌>>=◌, wait_until-eq (is_transmit_empty serial) n fuel d e p)
        (elim (Bool-cases (ltb n fuel)) [ inl e ↦ rw e refl | inr e ↦ rw e refl ])

  -- If the line status reports data, or room, first on the poll with number n (from 0), then with
  -- fuel above n `Read` takes the next byte from the data port, and `Write` sends its byte to it;
  -- with n polls or fewer they are still waiting.
  pub polling :
      (serial : Serial) (n fuel byte : ℕ) (d received empty : D)
      → Polls (serial_received serial) n d received
      → Polls (is_transmit_empty serial) n d empty
      → (Serial.read serial fuel d ≡ (if ltb n fuel then inb serial.port received else none))
        × (Serial.write serial fuel byte d
            ≡ (if ltb n fuel then outb serial.port byte empty else none))
  polling serial n fuel byte d received empty pr pe =
      (read-Polls serial n fuel d received pr, write-Polls serial n fuel byte d empty pe)

module _ {D : Type 0} ⦃bus : Bus D⦄ (port : ℕ) (chip : Uart D bus port) where
  -- The state after the nine instructions that put the chip into loopback mode.
  abbrev before : D → D
  before d = bus.out_byte (port + 4) 0x1E (
      bus.out_byte (port + 4) 0x0B (
        bus.out_byte (port + 2) 0xC7 (
          bus.out_byte (port + 3) 0x03 (
            bus.out_byte (port + 1) 0x00 (
              bus.out_byte port 0x03
                (bus.out_byte (port + 3) 0x80 (bus.out_byte (port + 1) 0x00 d)))))))

  -- The state after the test byte is sent.
  abbrev tested : D → D
  tested d = bus.out_byte port 0xAE (before d)

  -- The registers in loopback mode.
  in_test : UartState → UartState
  in_test s = record s {
    interrupt_enable = 0;
    divisor_low = 3;
    divisor_high = 0;
    line_control = 3;
    fifo_control = 0xC7;
    modem_control = 0x1E;
  }

  -- Setting the baud rate: the line control register is 128 between its two writes.
  divisor_set :
      (d : D)
      → (chip.uart d).line_control < 128
      → chip.uart (
          bus.out_byte (port + 3) 0x03 (
            bus.out_byte (port + 1) 0x00 (
              bus.out_byte port 0x03
                (bus.out_byte (port + 3) 0x80 (bus.out_byte (port + 1) 0x00 d)))))
        ≡ record (chip.uart d) {
          interrupt_enable = 0;
          divisor_low = 3;
          divisor_high = 0;
          line_control = 3;
        }
  divisor_set d off =
      let e2 =
        chip.line 0x80 _
        ∙ ap (λ (s : UartState). record s { line_control = 0x80 }) (chip.interrupts 0 d off) in
      let e3 =
        chip.low 0x03 _ (ground (arith, ap (λ (s : UartState). s.line_control) e2))
        ∙ ap (λ (s : UartState). record s { divisor_low = 3 }) e2 in
      let e4 =
        chip.high 0x00 _ (ground (arith, ap (λ (s : UartState). s.line_control) e3))
        ∙ ap (λ (s : UartState). record s { divisor_high = 0 }) e3 in
      chip.line 0x03 _ ∙ ap (λ (s : UartState). record s { line_control = 3 }) e4

  before-eq :
      (d : D) → (chip.uart d).line_control < 128 → chip.uart (before d) ≡ in_test (chip.uart d)
  unfolding in_test
  before-eq d off =
      let e6 =
        chip.fifo 0xC7 _
        ∙ ap (λ (s : UartState). record s { fifo_control = 0xC7 }) (divisor_set d off) in
      let e7 = chip.modem 0x0B _ ∙ ap (λ (s : UartState). record s { modem_control = 0x0B }) e6 in
      chip.modem 0x1E _ ∙ ap (λ (s : UartState). record s { modem_control = 0x1E }) e7

  tested-eq :
      (d : D) → (chip.uart d).line_control < 128 → chip.uart (tested d) ≡ in_test (chip.uart d)
  unfolding in_test
  tested-eq d off =
      let e = before-eq d off in
      chip.transmit 0xAE _ (ground (arith, ap (λ (s : UartState). s.line_control) e)) ∙ e

  -- The registers after the byte that the test sends is read back.
  received-eq :
      (d : D)
      → (chip.uart d).line_control < 128
      → chip.uart ((bus.in_byte port (tested d)).1) ≡ in_test (chip.uart d)
  unfolding in_test
  received-eq d off =
      let e = tested-eq d off in
      chip.receive _ (ground (arith, ap (λ (s : UartState). s.line_control) e)) ∙ e

  settled :
      (x : D) (s : UartState)
      → chip.uart x ≡ s
      → chip.uart (bus.out_byte (port + 4) 0x0F x) ≡ record s { modem_control = 0x0F }
  settled x s e = chip.modem 0x0F x ∙ ap (λ (s : UartState). record s { modem_control = 0x0F }) e

  -- On a 16550 below port 2^16 - 5 whose first two ports are not switched to the divisor, the
  -- constructor ends in normal mode with the chip's interrupts off, the divisor 3, 8 bits without
  -- parity and the FIFO on. Before, the chip is in loopback mode with these settings and is sent the
  -- byte 0xAE; the constructor halts the processor, once, exactly if the byte that it then receives
  -- is another, and goes on to normal mode in both cases.
  pub make_serial_lem :
      (d : D)
      → port + 5 < 2 ^ 16
      → (chip.uart d).line_control < 128
      → (t : D) × (d' : D) × (chip.uart t ≡ record {
        interrupt_enable = 0;
        divisor_low = 3;
        divisor_high = 0;
        line_control = 3;
        fifo_control = 0xC7;
        modem_control = 0x1E;
        halts = (chip.uart d).halts;
      })
        × (make_serial port d ≡ some (record { port = port }, d'))
        × (chip.uart d' ≡ record {
          interrupt_enable = 0;
          divisor_low = 3;
          divisor_high = 0;
          line_control = 3;
          fifo_control = 0xC7;
          modem_control = 0x0F;
          halts =
              if u8 ((bus.in_byte port (bus.out_byte port 0xAE t)).0) == 0xAE
              then (chip.uart d).halts
              else suc (chip.uart d).halts;
        })
  unfolding make_serial in_test
  make_serial_lem d lt off =
      let p0 : u16 (u32 (port + 0)) ≡ port = omega arith in
      let p1 : u16 (u32 (port + 1)) ≡ port + 1 = omega arith in
      let p2 : u16 (u32 (port + 2)) ≡ port + 2 = omega arith in
      let p3 : u16 (u32 (port + 3)) ≡ port + 3 = omega arith in
      let p4 : u16 (u32 (port + 4)) ≡ port + 4 = omega arith in
      let answer = bus.in_byte port (tested d) in
      elim (Bool-cases (u8 answer.0 == 0xAE)) [
        | inl e ↦
            let differs : (u8 answer.0 != 0xAE) ≡ false = ground arith in
            (
              before d,
              bus.out_byte (port + 4) 0x0F answer.1,
              before-eq d off,
              rw (p0, p1, p2, p3, p4, differs) (rw p4 refl),
              rw e (settled answer.1 _ (received-eq d off)),
            )
        | inr e ↦
            let differs : (u8 answer.0 != 0xAE) ≡ true = ground arith in
            (
              before d,
              bus.out_byte (port + 4) 0x0F (bus.halted answer.1),
              before-eq d off,
              rw (p0, p1, p2, p3, p4, differs) (rw p4 refl),
              rw e (
                  settled (bus.halted answer.1) _ (
                    chip.halt answer.1
                    ∙ ap (λ (s : UartState). record s { halts = suc s.halts })
                        (received-eq d off))),
            )
      ]
