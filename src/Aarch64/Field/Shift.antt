-- ===== src/Aarch64/Field/Shift.antt =====
-- `ReadWriteField::ReadWrite` of include/aarch64/regs/read_write.hpp, whose shift stays in the type
-- of the value.
use cpu_io.Base.{
  ℕ, ◌+◌, ◌-◌, ◌*◌, ◌%◌, ◌^◌, ◌≤◌, ◌<◌, ◌≡◌, inl, inr, Bool, true, false, ◌||◌, leb, ltb, arith,
  bit_and, ap, refl, some, none, bit_at, bit_at-bit_and, bit_at-mod-pow, same_bits, shl64,
  if◌then◌else◌, Bool-cases, leb→le,
}
use cpu_io.RegisterInfo.{
  DataType, bool, uint8, uint16, uint32, uint64, cast, Field, get_value, insert,
}
use cpu_io.RegisterInfo.Laws.{IsRun, bit_at-mask}
use cpu_io.Aarch64.Machine.{Reg, Stores, Core, put, pure, undefined, ◌>>=◌, ◌>>◌}
use cpu_io.Aarch64.ReadWrite.Laws.{is_word, read_word-eq, write-eq}
use cpu_io.Aarch64.Field
use cpu_io.Aarch64.Field.{shift_value}

abbrev pub is_wide : DataType → Bool
is_wide uint64 = true
is_wide _ = false

-- A mask below bit 32 sees the low 32 bits alone.
bit_and-low :
    (f : Field) (x y : ℕ)
    → IsRun f
    → f.bit_offset + f.bit_width ≤ 32
    → x % 2 ^ 32 ≡ y % 2 ^ 32
    → bit_and x f.bit_mask ≡ bit_and y f.bit_mask
bit_and-low f x y run le e = same_bits _ _ λ i. ground (
  arith,
  bit_at-bit_and i x f.bit_mask,
  bit_at-bit_and i y f.bit_mask,
  bit_at-mask f run i,
  bit_at-mod-pow 32 i x,
  bit_at-mod-pow 32 i y,
  ap (bit_at i) e,
)

small_shift :
    (v o : ℕ) (c : Core)
    → o < 32
    → (s : ℕ) × ((if ltb o 32
            then pure (
                if ltb (v * 2 ^ o % 2 ^ 32) (2 ^ 31)
                then v * 2 ^ o % 2 ^ 32
                else v * 2 ^ o % 2 ^ 32 + (2 ^ 64 - 2 ^ 32))
            else undefined)
          c
        ≡ some (s, c))
      × (s % 2 ^ 32 ≡ shl64 v o % 2 ^ 32)
small_shift v o c lt =
    let test : ltb o 32 ≡ true = ground arith in
    (
      (if ltb (v * 2 ^ o % 2 ^ 32) (2 ^ 31)
          then v * 2 ^ o % 2 ^ 32
          else v * 2 ^ o % 2 ^ 32 + (2 ^ 64 - 2 ^ 32)),
      rw test refl,
      ground arith,
    )

-- A shift below 32 in the value's type agrees with that in 64 bits on the low 32 bits.
shift_value-eq :
    (t : DataType) (v o : ℕ) (c : Core)
    → o < 32
    → (s : ℕ) × (shift_value t v o c ≡ some (s, c)) × (s % 2 ^ 32 ≡ shl64 v o % 2 ^ 32)
unfolding shift_value
shift_value-eq uint64 v o c lt = (shl64 v o, refl, refl)
shift_value-eq uint32 v o c lt =
    let test : ltb o 32 ≡ true = ground arith in (v * 2 ^ o % 2 ^ 32, rw test refl, omega arith)
shift_value-eq bool v o c lt = small_shift v o c lt
shift_value-eq uint8 v o c lt = small_shift v o c lt
shift_value-eq uint16 v o c lt = small_shift v o c lt

shift_value-none :
    (t : DataType) (v o : ℕ) (c : Core) → 32 ≤ o → is_wide t ≡ false → shift_value t v o c ≡ none
unfolding shift_value
shift_value-none uint64 v o c le e = cc
shift_value-none _ v o c le e = let test : ltb o 32 ≡ false = ground arith in rw test refl

shift_value-wide :
    (t : DataType) (v o : ℕ) (c : Core)
    → is_wide t ≡ true
    → shift_value t v o c ≡ some (shl64 v o, c)
unfolding shift_value
shift_value-wide uint64 v o c e = refl
shift_value-wide _ v o c e = cc

module _ ⦃w : Stores⦄ where
  -- What follows a shift that is defined and agrees with the 64-bit one under the mask.
  read_write-eq :
      (r : Reg) (f : Field) (v s : ℕ) (c : Core)
      → is_word r ≡ true
      → shift_value f.data_type (cast f.data_type v) f.bit_offset c ≡ some (s, c)
      → bit_and s f.bit_mask ≡ bit_and (shl64 (cast f.data_type v) f.bit_offset) f.bit_mask
      → Field.read_write r f v c
        ≡ some (get_value f (c.reg r), put r (insert f (c.reg r) (cast f.data_type v)) c)
  unfolding Field.read_write insert
  read_write-eq r f v s c e shifted masked =
      rw (read_word-eq r c e, ◌>>=◌)
        (rw (shifted, ◌>>=◌) (rw (◌>>◌, ◌>>=◌, write-eq r _ c e) (rw masked refl)))

  -- On a 64-bit register, `ReadWrite` of a field of type uint64_t, or of one below bit 32, writes
  -- what `Write` writes and returns the field's old value. Of a field of a smaller type from bit 32
  -- on, its shift is undefined. (No field of a smaller type lies across bit 32.)
  pub read_write_lem :
      (r : Reg) (f : Field) (v : ℕ) (c : Core)
      → is_word r ≡ true
      → IsRun f
      → is_wide f.data_type || leb (f.bit_offset + f.bit_width) 32 || leb 32 f.bit_offset ≡ true
      → Field.read_write r f v c ≡ (
          if is_wide f.data_type || ltb f.bit_offset 32
          then some (get_value f (c.reg r), put r (insert f (c.reg r) (cast f.data_type v)) c)
          else none)
  read_write_lem r f v c e run place = elim (Bool-cases (is_wide f.data_type)) [
    | inl wide ↦ rw wide (read_write-eq r f v _ c e (shift_value-wide f.data_type _ _ c wide) refl)
    | inr narrow ↦ elim (Bool-cases (ltb f.bit_offset 32)) [
      | inl low ↦
          let shifted =
            shift_value-eq f.data_type (cast f.data_type v) f.bit_offset c (ground arith) in
          rw (narrow, low)
            (read_write-eq r f v shifted.0 c e shifted.1
              (bit_and-low f shifted.0 _ run (leb→le _ 32 (ground arith)) shifted.2))
      | inr high ↦
          unfold Field.read_write in
          rw (narrow, high)
            (rw (read_word-eq r c e, ◌>>=◌)
              (rw
                (
                  shift_value-none f.data_type (cast f.data_type v) f.bit_offset c (ground arith)
                      narrow,
                  ◌>>=◌,
                )
                refl))
    ]
  ]
