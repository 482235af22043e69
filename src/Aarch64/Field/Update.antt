-- ===== src/Aarch64/Field/Update.antt =====
-- The field templates of include/aarch64/regs/read_write.hpp on the fields that
-- regs/register_info.hpp describes.
use cpu_io.Base.{
  ℕ, ◌^◌, ◌<◌, ◌≡◌, ◌≢◌, true, arith, bit_and, bit_or, bit_at-le-one, ◌∙◌, ap, refl, some, none,
  bit_at, bit_at-bit_or, not64, if◌then◌else◌,
}
use native.Mathlib.Nat.{mod-eq_of_lt}
use cpu_io.RegisterInfo.{cast, Field, get_value, insert, in_field}
use cpu_io.RegisterInfo.Laws.{
  IsRun, bit_at-mask, bit_at_kept, get_value-insert, get_value-insert_other,
}
use cpu_io.RegisterInfo.Table.{
  well_described, well_formed-IsRun, well_formed_of_Among, apart_of_described, cast_of_fits, Among,
}
use cpu_io.Aarch64.Machine.{Reg, x0, Stores, Core, put, update, ◌>>=◌}
use cpu_io.Aarch64.Info.Fields.{fields}
use cpu_io.Aarch64.ReadWrite.Laws.{
  is_readable, is_word, can_set, can_clear, read-eq, read_word-eq, write-eq, set_bits-eq,
  clear_bits-eq,
}
use cpu_io.Aarch64.Field

-- Every register's description is well formed: each field lies in the 64-bit word, with the mask
-- of its place and a type that holds its values, and no two fields of a register share a bit.
pub fields-well_described : (r : Reg) → well_described (fields r) ≡ true
fields-well_described x0 = refl
fields-well_described _ = refl

pub field-IsRun : (r : Reg) (f : Field) → Among f (fields r) → IsRun f
field-IsRun r f m =
    well_formed-IsRun f (well_formed_of_Among f (fields r) (fields-well_described r) m)

pub get-eq :
    (r : Reg) (f : Field) (c : Core)
    → is_readable r ≡ true
    → Field.get r f c ≡ some (get_value f (c.reg r), c)
unfolding Field.get
get-eq r f c e = rw (read-eq r c e, ◌>>=◌)

get_word-eq :
    (r : Reg) (f : Field) (c : Core)
    → is_word r ≡ true
    → Field.get r f c ≡ some (get_value f (c.reg r), c)
unfolding Field.get
get_word-eq r f c e = rw (read_word-eq r c e, ◌>>=◌)

module _ ⦃w : Stores⦄ where
  pub write-insert :
      (r : Reg) (f : Field) (v : ℕ) (c : Core)
      → is_word r ≡ true
      → Field.write r f v c ≡ some (tt, put r (insert f (c.reg r) (cast f.data_type v)) c)
  unfolding Field.write
  write-insert r f v c e = rw (read_word-eq r c e, ◌>>=◌) (write-eq r _ c e)

  -- For any two described fields of a 64-bit register that start at different bits: a value of the
  -- first field's width, written where the core stores the result, is read back; the second field
  -- reads as before, and no other register changes.
  pub get-write_described :
      (r : Reg) (f g : Field) (v : ℕ) (c : Core)
      → is_word r ≡ true
      → Among f (fields r)
      → Among g (fields r)
      → f.bit_offset ≢ g.bit_offset
      → c.reg r < 2 ^ 64
      → v < 2 ^ f.bit_width
      → w.value r (c.reg r) (insert f (c.reg r) v) ≡ insert f (c.reg r) v
      → (c' : Core) × (Field.write r f v c ≡ some (tt, c'))
        × (Field.get r f c' ≡ some (v, c'))
        × (Field.get r g c' ≡ some (get_value g (c.reg r), c'))
        × (c' ≡ record c { reg = update c.reg r (c'.reg r) })
  get-write_described r f g v c e mf mg ne lt fits a = (
    c',
    rw (write-insert r f v c e, typed) refl,
    get_word-eq r f c' e ∙ ap (λ (t : ℕ). some (t, c')) (ap (get_value f) stored ∙ back),
    get_word-eq r g c' e
        ∙ ap (λ (t : ℕ). some (t, c'))
            (ap (get_value g) stored
              ∙ get_value-insert_other f g (field-IsRun r f mf) (field-IsRun r g mg)
                  (apart_of_described f g (fields r) (fields-well_described r) mf mg ne) (c.reg r) v
                  lt),
    rw stored (rw a),
  )
    where
      c' : Core
      c' = put r (insert f (c.reg r) v) c

      stored : c'.reg r ≡ insert f (c.reg r) v
      stored = ground arith

      typed : cast f.data_type v ≡ v
      typed = cast_of_fits f v (well_formed_of_Among f (fields r) (fields-well_described r) mf) fits

      back : get_value f (insert f (c.reg r) v) ≡ v
      back =
          get_value-insert f (field-IsRun r f mf) (c.reg r) v lt
          ∙ ap (cast f.data_type) (mod-eq_of_lt fits)
          ∙ typed

  -- `Set` and `Clear` of a described field: where `SetBits` compiles for the register, the core is
  -- handed the old value with exactly the field's bits one, and otherwise `Set` does not compile; so
  -- for `Clear` and `ClearBits` with the bits zero.
  pub switch_described :
      (r : Reg) (f : Field) (c : Core)
      → Among f (fields r)
      → c.reg r < 2 ^ 64
      → (s : ℕ) × (t : ℕ) × (Field.set r f c ≡ (if can_set r then some (tt, put r s c) else none))
        × (Field.clear r f c ≡ (if can_clear r then some (tt, put r t c) else none))
        × ((i : ℕ) → bit_at i s ≡ (if in_field f i then 1 else bit_at i (c.reg r)))
        × ((i : ℕ) → bit_at i t ≡ (if in_field f i then 0 else bit_at i (c.reg r)))
  unfolding Field.set Field.clear
  switch_described r f c m lt = (
    bit_or (c.reg r) f.bit_mask,
    bit_and (c.reg r) (not64 f.bit_mask),
    set_bits-eq r f.bit_mask c,
    clear_bits-eq r f.bit_mask c,
    λ i. ground (
      arith,
      bit_at-bit_or i (c.reg r) f.bit_mask,
      bit_at-mask f (field-IsRun r f m) i,
      bit_at-le-one i (c.reg r),
    ),
    λ i. bit_at_kept f (field-IsRun r f m) (c.reg r) i lt,
  )
