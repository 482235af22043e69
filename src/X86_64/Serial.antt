-- ===== src/X86_64/Serial.antt =====
-- The class `Serial` of include/x86_64/serial.hpp: a 16550 UART.
pub mod Uart
pub mod Laws
pub mod Termination
pub mod Tests
use cpu_io.Base.{ℕ, zero, suc, ◌+◌, ◌!=◌, Bool, if◌then◌else◌, bit_and, u32}
use cpu_io.X86_64.Bus.{Bus, M, undefined, pure, ◌>>=◌, ◌>>◌, inb, outb, hlt}

pub record Serial : Type 0 where
  pub port : ℕ

module _ {D : Type 0} ⦃bus : Bus D⦄ where
  -- The constructor with a port, a uint32_t.
  unfoldable pub make_serial : ℕ → M D Serial
  make_serial port = do
    outb (u32 (port + 1)) 0x00
    outb (u32 (port + 3)) 0x80
    outb (u32 (port + 0)) 0x03
    outb (u32 (port + 1)) 0x00
    outb (u32 (port + 3)) 0x03
    outb (u32 (port + 2)) 0xC7
    outb (u32 (port + 4)) 0x0B
    outb (u32 (port + 4)) 0x1E
    outb (u32 (port + 0)) 0xAE
    echo ← inb (u32 (port + 0))
    if echo != 0xAE then hlt else pure tt
    outb (u32 (port + 4)) 0x0F
    pure record { port = port }

  unfoldable pub serial_received : Serial → M D Bool
  serial_received serial = do status ← inb (u32 (serial.port + 5)); pure (bit_and status 1 != 0)

  unfoldable pub is_transmit_empty : Serial → M D Bool
  is_transmit_empty serial = do
    status ← inb (u32 (serial.port + 5))
    pure (bit_and status 0x20 != 0)

  -- `while (!test()) ;`, with fuel for the tests: out of fuel it has no result.
  unfoldable pub wait_until : M D Bool → ℕ → M D (Unit {0})
  wait_until test zero = undefined
  wait_until test (suc fuel) =
      let rest = wait_until test fuel in do done ← test; if done then pure tt else rest

  unfoldable pub read : Serial → ℕ → M D ℕ
  read serial fuel = do wait_until (serial_received serial) fuel; inb serial.port

  unfoldable pub write : Serial → ℕ → ℕ → M D (Unit {0})
  write serial fuel byte = do wait_until (is_transmit_empty serial) fuel; outb serial.port byte
