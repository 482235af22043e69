-- ===== src/Aarch64/Psci/Laws.antt =====
-- What `CpuOn` and `CpuOff` of include/aarch64/psci.hpp answer.
use cpu_io.Base.{ℕ, ◌-◌, ◌^◌, ◌%◌, ◌≡◌, arith, refl, some}
use cpu_io.State.{◌>>=◌}
use cpu_io.Aarch64.Psci.{
  ErrorCode, success, below_zero, error_code, SmcReturnValue, Firmware, cpu_on, cpu_off,
  secure_monitor_call, converted,
}

-- x0 holds the code as a 32-bit two's complement number, whatever is in the upper half.
abbrev pub Holds : ErrorCode → ℕ → Type 0
Holds e x0 = x0 % 2 ^ 32 ≡ (2 ^ 32 - below_zero e) % 2 ^ 32

error_code-Holds : (e : ErrorCode) (x0 : ℕ) → Holds e x0 → error_code x0 ≡ some e
unfolding error_code
error_code-Holds success x0 h = ground arith
error_code-Holds _ x0 h = ground arith

module _ {S : Type 0} ⦃firmware : Firmware S⦄ where
  -- Where the firmware returns a code in x0, as 32 bits or sign-extended to 64, to the CPU_ON call
  -- 0xC4000003 with the target, the entry point and the context in x1 to x3 and zeros in x4 to x7,
  -- and a code to the CPU_OFF call 0x84000002 with zeros, `CpuOn` and `CpuOff` return these codes.
  pub power_calls :
      (target_cpu entry context : ℕ) (on off : ErrorCode) (r q : SmcReturnValue) (s s' s'' : S)
      → firmware.smc
          record {
            x0 = 0xC400_0003;
            x1 = target_cpu;
            x2 = entry;
            x3 = context;
            x4 = 0;
            x5 = 0;
            x6 = 0;
            x7 = 0;
          }
          s
        ≡ some (r, s')
      → firmware.smc
          record { x0 = 0x8400_0002; x1 = 0; x2 = 0; x3 = 0; x4 = 0; x5 = 0; x6 = 0; x7 = 0 }
          s
        ≡ some (q, s'')
      → Holds on r.a0
      → Holds off q.a0
      → (cpu_on target_cpu entry context s ≡ some (on, s')) × (cpu_off s ≡ some (off, s''))
  unfolding cpu_on cpu_off secure_monitor_call
  power_calls target_cpu entry context on off r q s s' s'' called_on called_off holds_on holds_off =
      (
        rw (called_on, ◌>>=◌) (rw (converted, error_code-Holds on r.a0 holds_on) refl),
        rw (called_off, ◌>>=◌) (rw (converted, error_code-Holds off q.a0 holds_off) refl),
      )
