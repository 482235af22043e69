-- ===== src/X86_64/Serial/Uart.antt =====
-- What the documentation of the 16550 says of its registers, as laws on a view of the bus's state.
use cpu_io.Base.{ℕ, suc, ◌+◌, ◌≤◌, ◌<◌, ◌≡◌}
use cpu_io.X86_64.Bus.{Bus}

-- The registers that are written, and how often the processor has been halted.
pub record UartState : Type 0 where
  pub interrupt_enable : ℕ
  pub divisor_low : ℕ
  pub divisor_high : ℕ
  pub line_control : ℕ
  pub fifo_control : ℕ
  pub modem_control : ℕ
  pub halts : ℕ

-- Bit 7 of the line control register, 128, makes the first two ports the baud rate divisor.
-- Sending and receiving a byte change none of these registers; which byte is received, and what is
-- left in the FIFOs, is up to the device.
pub record Uart (D : Type 0) (bus : Bus D) (port : ℕ) : Type 0 where
  pub uart : D → UartState
  pub line :
      (v : ℕ) (d : D) → uart (bus.out_byte (port + 3) v d) ≡ record (uart d) { line_control = v }
  pub low :
      (v : ℕ) (d : D)
      → 128 ≤ (uart d).line_control
      → uart (bus.out_byte port v d) ≡ record (uart d) { divisor_low = v }
  pub high :
      (v : ℕ) (d : D)
      → 128 ≤ (uart d).line_control
      → uart (bus.out_byte (port + 1) v d) ≡ record (uart d) { divisor_high = v }
  pub interrupts :
      (v : ℕ) (d : D)
      → (uart d).line_control < 128
      → uart (bus.out_byte (port + 1) v d) ≡ record (uart d) { interrupt_enable = v }
  pub transmit :
      (v : ℕ) (d : D) → (uart d).line_control < 128 → uart (bus.out_byte port v d) ≡ uart d
  pub fifo :
      (v : ℕ) (d : D) → uart (bus.out_byte (port + 2) v d) ≡ record (uart d) { fifo_control = v }
  pub modem :
      (v : ℕ) (d : D) → uart (bus.out_byte (port + 4) v d) ≡ record (uart d) { modem_control = v }
  pub receive : (d : D) → (uart d).line_control < 128 → uart ((bus.in_byte port d).1) ≡ uart d
  pub halt : (d : D) → uart (bus.halted d) ≡ record (uart d) { halts = suc (uart d).halts }
