-- ===== src/RegisterInfo.antt =====
-- register_info_base.h, the same text in include/aarch64/regs, include/riscv64/regs and
-- include/x86_64/regs: how a register or a bit field of one is described. The extraction and the
-- insertion of a field are those of the `ReadOnlyField` and `ReadWriteField` templates.
pub mod Access
pub mod Laws
pub mod Sequence
pub mod Table
use cpu_io.Base.{
  ℕ, ltb, ◌!=◌, if◌then◌else◌, shl64, shr, sub64, not64, u8, u16, u32, u64, bit_and, bit_or, Bool,
  leb, ◌&&◌, ◌+◌,
}

-- The `DataType` of a field: the type that its value is read and written in.
pub data DataType : Type 0 where
  bool uint8 uint16 uint32 uint64 : DataType

-- `static_cast<DataType>` of a uint64_t; a bool is 0 or 1.
unfoldable pub cast : DataType → ℕ → ℕ
cast bool v = if v != 0 then 1 else 0
cast uint8 v = u8 v
cast uint16 v = u16 v
cast uint32 v = u32 v
cast uint64 v = u64 v

pub record Field : Type 0 where
  pub bit_offset : ℕ
  pub bit_width : ℕ
  pub bit_mask : ℕ
  pub all_set_mask : ℕ
  pub data_type : DataType

-- The masks that every description derives from its offset and width.
abbrev pub field : ℕ → ℕ → DataType → Field
field offset width t = record {
  bit_offset = offset;
  bit_width = width;
  bit_mask = if ltb width 64 then shl64 (sub64 (shl64 1 width) 1) offset else not64 0;
  all_set_mask = if ltb width 64 then sub64 (shl64 1 width) 1 else not64 0;
  data_type = t;
}

-- `static_cast<DataType>((value & kBitMask) >> kBitOffset)`.
unfoldable pub get_value : Field → ℕ → ℕ
get_value f value = cast f.data_type (shr (bit_and value f.bit_mask) f.bit_offset)

-- `(org & ~kBitMask) | ((value << kBitOffset) & kBitMask)`, the shift in 64 bits.
unfoldable pub insert : Field → ℕ → ℕ → ℕ
insert f org value =
    bit_or (bit_and org (not64 f.bit_mask)) (bit_and (shl64 value f.bit_offset) f.bit_mask)

-- Whether bit i belongs to the field.
abbrev pub in_field : Field → ℕ → Bool
in_field f i = leb f.bit_offset i && ltb i (f.bit_offset + f.bit_width)
