-- ===== src/Aarch64/Field.antt =====
-- ReadOnlyField, WriteOnlyField and ReadWriteField of include/aarch64/regs/read_write.hpp, over a
-- register and the description of a field.
pub mod Sequence
pub mod Shift
pub mod Update
use cpu_io.Base.{ℕ, ◌+◌, ◌-◌, ◌*◌, ◌%◌, ◌^◌, ltb, if◌then◌else◌, bit_and, bit_or, shl64, not64}
use cpu_io.RegisterInfo.{
  DataType, bool, uint8, uint16, uint32, uint64, cast, Field, get_value, insert,
}
use cpu_io.Aarch64.Machine.{Reg, Stores, M, undefined, pure, ◌>>=◌, ◌>>◌}
use cpu_io.Aarch64.ReadWrite

unfoldable pub get : Reg → Field → M ℕ
get r f = do value ← ReadWrite.read r; pure (get_value f value)

-- `Get(value)`.
unfoldable pub get_of : Field → ℕ → ℕ
get_of f value = get_value f value

-- `value << offset` in the type of the value, converted to 64 bits: the types below uint32_t are
-- promoted to int, whose bit 31 is the sign, and a shift by 32 or more is undefined.
unfoldable pub shift_value : DataType → ℕ → ℕ → M ℕ
shift_value uint64 value offset = pure (shl64 value offset)
shift_value uint32 value offset =
    if ltb offset 32 then pure (value * 2 ^ offset % 2 ^ 32) else undefined
shift_value _ value offset =
    let low = value * 2 ^ offset % 2 ^ 32 in
    if ltb offset 32
    then pure (if ltb low (2 ^ 31) then low else low + (2 ^ 64 - 2 ^ 32))
    else undefined

module _ ⦃w : Stores⦄ where
  unfoldable pub set : Reg → Field → M (Unit {0})
  set r f = ReadWrite.set_bits r f.bit_mask

  unfoldable pub clear : Reg → Field → M (Unit {0})
  clear r f = ReadWrite.clear_bits r f.bit_mask

  -- The parameter is a `DataType`, so the caller's value is converted first.
  unfoldable pub write : Reg → Field → ℕ → M (Unit {0})
  write r f value = do
    org_value ← ReadWrite.read r
    ReadWrite.write r (insert f org_value (cast f.data_type value))

  -- Unlike `Write`, this does not convert the value to 64 bits before the shift.
  unfoldable pub read_write : Reg → Field → ℕ → M ℕ
  read_write r f value = do
    org_value ← ReadWrite.read r
    shifted ← shift_value f.data_type (cast f.data_type value) f.bit_offset
    ReadWrite.write r (bit_or (bit_and org_value (not64 f.bit_mask)) (bit_and shifted f.bit_mask))
    pure (get_value f org_value)
