-- ===== src/Aarch64/ReadWrite/Constants.antt =====
-- The constant forms `WriteConst`, `SetConst` and `ClearConst` of
-- include/aarch64/regs/read_write.hpp.
use cpu_io.Base.{
  ℕ, ◌*◌, ◌^◌, ◌<◌, ◌≡◌, Bool, true, false, arith, bit_and, bit_or, bit_and-ones, ltb, some, none,
  not64, if◌then◌else◌, inl, inr, Bool-cases, ◌==◌, u8, refl,
}
use cpu_io.Aarch64.Machine.{Reg, x0, spsel, daif, Stores, Core, put}
use cpu_io.Aarch64.ReadWrite.{
  write, set_bits, clear_bits, write_imm, set_bits_imm, clear_bits_imm, write_const, set_const,
  clear_const,
}

-- The registers that have an immediate form: SPSel for writing, DAIF for setting and clearing.
abbrev pub is_spsel : Reg → Bool
is_spsel spsel = true
is_spsel _ = false

abbrev pub is_daif : Reg → Bool
is_daif daif = true
is_daif _ = false

module _ ⦃w : Stores⦄ where
  write_imm-eq :
      (r : Reg) (v : ℕ) (c : Core)
      → v < 16
      → write_imm r v c ≡ (if is_spsel r then some (tt, put r v c) else none)
  unfolding write_imm
  write_imm-eq x0 v c lt = refl
  write_imm-eq _ v c lt = first_of (cc, ground arith)

  set_bits_imm-eq :
      (r : Reg) (v : ℕ) (c : Core)
      → v < 16
      → set_bits_imm r v c
        ≡ (if is_daif r then some (tt, put r (bit_or (c.reg r) (v * 2 ^ 6)) c) else none)
  unfolding set_bits_imm
  set_bits_imm-eq x0 v c lt = refl
  set_bits_imm-eq _ v c lt = first_of (cc, ground arith)

  clear_bits_imm-eq :
      (r : Reg) (v : ℕ) (c : Core)
      → v < 16
      → clear_bits_imm r v c
        ≡ (if is_daif r then some (tt, put r (bit_and (c.reg r) (not64 (v * 2 ^ 6))) c) else none)
  unfolding clear_bits_imm
  clear_bits_imm-eq x0 v c lt = refl
  clear_bits_imm-eq _ v c lt = first_of (cc, ground arith)

  -- For a 64-bit constant of 16 or more, the constant forms do what the register forms do. Below 16
  -- `WriteConst` compiles for SPSel alone, where it writes the value, and `SetConst` and
  -- `ClearConst` for DAIF alone, where they set and clear the bits six places above the mask's,
  -- which are not those that `SetBits` and `ClearBits` act on.
  pub small_constants :
      (r : Reg) (v : ℕ) (c : Core)
      → v < 2 ^ 64
      → (write_const r v c
          ≡ (if ltb v 16 then if is_spsel r then some (tt, put r v c) else none else write r v c))
        × (set_const r v c ≡ (
            if ltb v 16
            then if is_daif r then some (tt, put r (bit_or (c.reg r) (v * 2 ^ 6)) c) else none
            else set_bits r v c))
        × (clear_const r v c ≡ (
            if ltb v 16
            then if is_daif r
              then some (tt, put r (bit_and (c.reg r) (not64 (v * 2 ^ 6))) c)
              else none
            else clear_bits r v c))
  unfolding write_const set_const clear_const
  small_constants r v c lt = elim (Bool-cases (ltb v 16)) [
    | inl e ↦
        let test : (bit_and v 0xF == v) ≡ true = ground (arith, bit_and-ones 4 0 v) in
        let low : u8 v ≡ v = ground arith in
        (
          rw (e, test, low) (write_imm-eq r v c (ground arith)),
          rw (e, test, low) (set_bits_imm-eq r v c (ground arith)),
          rw (e, test, low) (clear_bits_imm-eq r v c (ground arith)),
        )
    | inr e ↦
        let test : (bit_and v 0xF == v) ≡ false = ground (arith, bit_and-ones 4 0 v) in
        (rw (e, test) refl, rw (e, test) refl, rw (e, test) refl)
  ]
