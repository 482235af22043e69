-- ===== src/X86_64/Serial/Tests.antt =====
-- A port that meets the hypotheses of the theorems about include/x86_64/serial.hpp.
use cpu_io.Base.{
  Bool, true, false, ℕ, suc, ◌-◌, ◌≡◌, arith, some, refl, if◌then◌else◌, ◌==◌, ltb, ◌≤◌, u8,
  bit_and,
}
use cpu_io.X86_64.Bus.{Bus, inb, outb}
use cpu_io.X86_64.Serial.{Serial, make_serial, serial_received, is_transmit_empty}
use cpu_io.X86_64.Serial
use cpu_io.X86_64.Serial.Uart.{Uart, UartState}
use cpu_io.X86_64.Serial.Termination.{Wears, operations_end}
use cpu_io.X86_64.Serial.Laws.{Polls, ready, busy, make_serial_lem}

-- A 16550 at 0x3F8 that is ready from the third read of its line status on.
record Line : Type 0 where
  state : UartState
  byte : ℕ
  wait : ℕ

abbrev minus_one : ℕ → ℕ
minus_one n = n - 1

instance abbrev line_bus : Bus Line
line_bus = record {
  in_byte = λ port d.
      if port == 0x3FD
      then ((if d.wait == 0 then 0x61 else 0x00), record d { wait = minus_one d.wait })
      else (d.byte, d);
  out_byte = λ port v d.
      if port == 0x3F8
      then if ltb d.state.line_control 128
        then record d { byte = v }
        else record d { state = record d.state { divisor_low = v } }
      else if port == 0x3F9
      then if ltb d.state.line_control 128
        then record d { state = record d.state { interrupt_enable = v } }
        else record d { state = record d.state { divisor_high = v } }
      else if port == 0x3FA
      then record d { state = record d.state { fifo_control = v } }
      else if port == 0x3FB
      then record d { state = record d.state { line_control = v } }
      else if port == 0x3FC
      then record d { state = record d.state { modem_control = v } }
      else d;
  halted = λ d. record d { state = record d.state { halts = suc d.state.halts } };
}

abbrev uart : Uart Line line_bus 0x3F8
uart = record {
  uart = λ d. d.state;
  line = λ v d. refl;
  low = λ v d e. ground arith;
  high = λ v d e. ground arith;
  interrupts = λ v d e. ground arith;
  transmit = λ v d e. ground arith;
  fifo = λ v d. refl;
  modem = λ v d. refl;
  receive = λ d e. refl;
  halt = λ d. refl;
}

abbrev reset : UartState
reset = record {
  interrupt_enable = 0;
  divisor_low = 12;
  divisor_high = 0;
  line_control = 0;
  fifo_control = 0;
  modem_control = 0;
  halts = 0;
}

abbrev waiting : ℕ → Line
waiting n = record { state = reset; byte = 0x41; wait = n }

make_serial_example :
    (t : Line) × (d : Line) × (t.state ≡ record {
      interrupt_enable = 0;
      divisor_low = 3;
      divisor_high = 0;
      line_control = 3;
      fifo_control = 0xC7;
      modem_control = 0x1E;
      halts = 0;
    })
    × (make_serial 0x3F8 (waiting 2) ≡ some (record { port = 0x3F8 }, d))
    × (d.state ≡ record {
      interrupt_enable = 0;
      divisor_low = 3;
      divisor_high = 0;
      line_control = 3;
      fifo_control = 0xC7;
      modem_control = 0x0F;
      halts =
          if u8 ((line_bus.in_byte 0x3F8 (line_bus.out_byte 0x3F8 0xAE t)).0) == 0xAE then 0 else 1;
    })
make_serial_example = make_serial_lem 0x3F8 uart (waiting 2) (omega arith) (omega arith)

abbrev serial : Serial
serial = record { port = 0x3F8 }

received_third : Polls (serial_received serial) 2 (waiting 2) (waiting 0)
unfolding serial_received
received_third = busy refl (busy refl (ready refl))

empty_third : Polls (is_transmit_empty serial) 2 (waiting 2) (waiting 0)
unfolding is_transmit_empty
empty_third = busy refl (busy refl (ready refl))

busy_received : (b : Bool) → bit_and (u8 (if b then 0x61 else 0x00)) 1 ≡ 0 → b ≡ false
busy_received true e = cc
busy_received false e = refl

busy_empty : (b : Bool) → bit_and (u8 (if b then 0x61 else 0x00)) 0x20 ≡ 0 → b ≡ false
busy_empty true e = cc
busy_empty false e = refl

Wears-received : Wears {D = Line} serial 1 (λ d. d.wait)
Wears-received d e =
    let later : (d.wait == 0) ≡ false = busy_received (d.wait == 0) e in ground arith

Wears-empty : Wears {D = Line} serial 0x20 (λ d. d.wait)
Wears-empty d e = let later : (d.wait == 0) ≡ false = busy_empty (d.wait == 0) e in ground arith

operations_end_example :
    (n : ℕ) × (e : Line) × (m : ℕ) × (g : Line) × Polls (serial_received serial) n (waiting 2) e
    × (n ≤ 2)
    × Polls (is_transmit_empty serial) m (waiting 2) g
    × (m ≤ 2)
    × (Serial.read serial 3 (waiting 2) ≡ inb serial.port e)
    × (Serial.write serial 3 0x42 (waiting 2) ≡ outb serial.port 0x42 g)
operations_end_example =
    operations_end serial 3 0x42 (waiting 2) (λ d. d.wait) (λ d. d.wait) Wears-received Wears-empty
      (omega arith) (omega arith)
