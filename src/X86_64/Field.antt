-- ===== src/X86_64/Field.antt =====
-- ReadOnlyField, WriteOnlyField and ReadWriteField of include/x86_64/regs/read_write.hpp, over a
-- register and the description of a field.
pub mod Update
use cpu_io.Base.{ℕ, u16, ◌==◌, if◌then◌else◌, ◌/◌, ◌%◌, ◌^◌}
use cpu_io.RegisterInfo.{cast, Field, get_value, insert}
use cpu_io.X86_64.Machine.{Reg, gdtr, idtr, Stores, M, not_compiled, pure, ◌>>=◌, ◌>>◌}
use cpu_io.X86_64.ReadWrite

unfoldable pub get : Reg → Field → M ℕ
get r f = do value ← ReadWrite.read r; pure (get_value f value)

-- `Get(value)`. For the limit of a table register it is the value, converted to uint16_t; the
-- base of GDTR is a pointer, which the value does not convert to, and that of IDTR a uint64_t.
unfoldable pub get_of : Reg → Field → ℕ → M ℕ
get_of gdtr f value = if f.bit_width == 16 then pure (u16 value) else not_compiled
get_of idtr f value = if f.bit_width == 16 then pure (u16 value) else pure value
get_of _ f value = pure (get_value f value)

-- `Get` of GdtrInfo::Limit and GdtrInfo::Base, and of those of IdtrInfo: the members of the image.
unfoldable pub get_limit : Reg → M ℕ
get_limit r = do value ← ReadWrite.read r; pure (value % 2 ^ 16)

unfoldable pub get_base : Reg → M ℕ
get_base r = do value ← ReadWrite.read r; pure (value / 2 ^ 16 % 2 ^ 64)

module _ ⦃w : Stores⦄ where
  unfoldable pub set : Reg → Field → M (Unit {0})
  set r f = ReadWrite.set_bits r f.bit_offset

  unfoldable pub clear : Reg → Field → M (Unit {0})
  clear r f = ReadWrite.clear_bits r f.bit_offset

  -- The image of a table register is a structure, which has no `&`.
  unfoldable pub write : Reg → Field → ℕ → M (Unit {0})
  write gdtr f value = not_compiled
  write idtr f value = not_compiled
  write r f value = do
    org_value ← ReadWrite.read r
    ReadWrite.write r (insert f org_value (cast f.data_type value))

  unfoldable pub read_write : Reg → Field → ℕ → M ℕ
  read_write gdtr f value = not_compiled
  read_write idtr f value = not_compiled
  read_write r f value = do
    org_value ← ReadWrite.read r
    ReadWrite.write r (insert f org_value (cast f.data_type value))
    pure (get_value f org_value)
