-- ===== src/Riscv64/Field.antt =====
-- ReadOnlyField, WriteOnlyField and ReadWriteField of include/riscv64/regs/read_write.hpp, over a
-- register and the description of a field.
pub mod Laws
pub mod Update
use cpu_io.Base.{ℕ, ◌==◌, if◌then◌else◌, bit_and, u8}
use cpu_io.RegisterInfo.{cast, Field, get_value, insert}
use cpu_io.Riscv64.Hart.{Reg, Csrs, M, pure, ◌>>=◌, ◌>>◌}
use cpu_io.Riscv64.ReadWrite
use cpu_io.Riscv64.ReadWrite.{csr_imm_op_mask, set_bits_imm, set_bits, clear_bits_imm, clear_bits}

unfoldable pub get : Reg → Field → M ℕ
get r f = do value ← ReadWrite.read r; pure (get_value f value)

-- `Get(value)`.
unfoldable pub get_of : Field → ℕ → ℕ
get_of f value = get_value f value

module _ ⦃c : Csrs⦄ where
  unfoldable pub set : Reg → Field → M (Unit {0})
  set r f =
      if bit_and f.bit_mask csr_imm_op_mask == f.bit_mask
      then set_bits_imm r (u8 f.bit_mask)
      else set_bits r f.bit_mask

  unfoldable pub clear : Reg → Field → M (Unit {0})
  clear r f =
      if bit_and f.bit_mask csr_imm_op_mask == f.bit_mask
      then clear_bits_imm r (u8 f.bit_mask)
      else clear_bits r f.bit_mask

  -- The parameter is a `DataType`, so the caller's value is converted first.
  unfoldable pub write : Reg → Field → ℕ → M (Unit {0})
  write r f value = do
    org_value ← ReadWrite.read r
    ReadWrite.write r (insert f org_value (cast f.data_type value))

  unfoldable pub read_write : Reg → Field → ℕ → M ℕ
  read_write r f value = do
    org_value ← ReadWrite.read r
    ReadWrite.write r (insert f org_value (cast f.data_type value))
    pure (get_value f org_value)
