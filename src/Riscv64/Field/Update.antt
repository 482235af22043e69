-- ===== src/Riscv64/Field/Update.antt =====
-- The field templates of include/riscv64/regs/read_write.hpp: what a write, a set and a clear of a
-- field do to the bits of the register.
use cpu_io.Base.{
  ℕ, ◌+◌, ◌-◌, ◌^◌, ◌≤◌, ◌<◌, ◌≡◌, ◌≢◌, ◌⊎◌, true, arith, bit_and, bit_or, bit_at-le-one, ◌∙◌, ap,
  some, bit_at, bit_at-bit_or, not64, if◌then◌else◌,
}
use native.Mathlib.Nat.{mod-eq_of_lt}
use cpu_io.RegisterInfo.{cast, Field, get_value, insert, in_field}
use cpu_io.RegisterInfo.Laws.{
  IsRun, bit_at-insert, bit_at-mask, mask-lt, mask-pos, bit_at_kept, get_value-insert,
  get_value-insert_other, insert-lt,
}
use cpu_io.Riscv64.Hart.{Reg, Csrs, Hart, put, index, update, ◌>>=◌}
use cpu_io.Riscv64.ReadWrite.{set_const, clear_const}
use cpu_io.Riscv64.Field
use cpu_io.Riscv64.Field.Laws.{
  is_csr, read-eq, write-eq, set_bits-eq, clear_bits-eq, set_const-eq, clear_const-eq,
}

pub get-eq : (r : Reg) (f : Field) (h : Hart) → Field.get r f h ≡ some (get_value f (h.reg r), h)
unfolding Field.get
get-eq r f h = rw (read-eq r h, ◌>>=◌)

module _ ⦃c : Csrs⦄ where
  -- The hart stores the value as it is written.
  abbrev pub Accepts : Reg → ℕ → Hart → Type 0
  Accepts r n h = c.legal r (h.reg r) n ≡ n

  pub write-insert :
      (r : Reg) (f : Field) (v : ℕ) (h : Hart)
      → is_csr r ≡ true
      → Field.write r f v h ≡ some (tt, put r (insert f (h.reg r) (cast f.data_type v)) h)
  unfolding Field.write
  write-insert r f v h e = rw (read-eq r h, ◌>>=◌) (write-eq r _ h e)

  pub put_self : (r : Reg) (n : ℕ) (h : Hart) → Accepts r n h → (put r n h).reg r ≡ n
  put_self r n h a = ground arith

  pub put_other : (r q : Reg) (n : ℕ) (h : Hart) → index r ≢ index q → (put r n h).reg q ≡ h.reg q
  put_other r q n h ne = ground arith

  -- A field write to a CSR hands the hart one new value, of 64 bits, in which the field's bits are
  -- the low bits of the value given, converted to the field's type, and every other bit is that of
  -- the old value.
  pub write_bits :
      (r : Reg) (f : Field) (v : ℕ) (h : Hart)
      → is_csr r ≡ true
      → IsRun f
      → h.reg r < 2 ^ 64
      → (n : ℕ) × (Field.write r f v h ≡ some (tt, put r n h))
        × (n < 2 ^ 64)
        × ((i : ℕ)
            → bit_at i n ≡ (
                if in_field f i
                then bit_at (i - f.bit_offset) (cast f.data_type v)
                else bit_at i (h.reg r)))
  write_bits r f v h e run lt = (
    insert f (h.reg r) (cast f.data_type v),
    write-insert r f v h e,
    insert-lt f run (h.reg r) (cast f.data_type v) lt,
    λ i. bit_at-insert f run (h.reg r) (cast f.data_type v) i lt,
  )

  -- In a CSR that can be written, let a field be a run of bits with the mask of just these bits, as
  -- all are but the base of stvec. A value of the field's type that fits its width, written to the
  -- CSR where the hart keeps the resulting 64-bit word, is read back; another such field that shares
  -- no bit with it reads as before, and no other register changes.
  pub get-write :
      (r : Reg) (f g : Field) (v : ℕ) (h : Hart)
      → is_csr r ≡ true
      → IsRun f
      → IsRun g
      → (f.bit_offset + f.bit_width ≤ g.bit_offset) ⊎ (g.bit_offset + g.bit_width ≤ f.bit_offset)
      → h.reg r < 2 ^ 64
      → cast f.data_type v ≡ v
      → v < 2 ^ f.bit_width
      → Accepts r (insert f (h.reg r) v) h
      → (h' : Hart) × (Field.write r f v h ≡ some (tt, h'))
        × (Field.get r f h' ≡ some (v, h'))
        × (Field.get r g h' ≡ some (get_value g (h.reg r), h'))
        × (h' ≡ record h { reg = update h.reg r (h'.reg r) })
  get-write r f g v h e run rg apart lt typed fits a = (
    h',
    rw (write-insert r f v h e, typed),
    get-eq r f h' ∙ ap (λ (t : ℕ). some (t, h')) (ap (get_value f) stored ∙ back),
    get-eq r g h'
        ∙ ap (λ (t : ℕ). some (t, h'))
            (ap (get_value g) stored ∙ get_value-insert_other f g run rg apart (h.reg r) v lt),
    rw stored (rw a),
  )
    where
      h' : Hart
      h' = put r (insert f (h.reg r) v) h

      stored : h'.reg r ≡ insert f (h.reg r) v
      stored = put_self r (insert f (h.reg r) v) h a

      back : get_value f (insert f (h.reg r) v) ≡ v
      back =
          get_value-insert f run (h.reg r) v lt ∙ ap (cast f.data_type) (mod-eq_of_lt fits) ∙ typed

  -- Both forms of `Set` and of `Clear` act on the mask alike.
  pub set-eq :
      (r : Reg) (f : Field) (h : Hart)
      → is_csr r ≡ true
      → f.bit_mask < 2 ^ 64
      → f.bit_mask ≢ 0
      → Field.set r f h ≡ some (tt, put r (bit_or (h.reg r) f.bit_mask) h)
  unfolding Field.set
  set-eq r f h e lt ne =
      unfold set_const in set_const-eq r f.bit_mask h e lt ne ∙ set_bits-eq r f.bit_mask h e

  pub clear-eq :
      (r : Reg) (f : Field) (h : Hart)
      → is_csr r ≡ true
      → f.bit_mask < 2 ^ 64
      → f.bit_mask ≢ 0
      → Field.clear r f h ≡ some (tt, put r (bit_and (h.reg r) (not64 f.bit_mask)) h)
  unfolding Field.clear
  clear-eq r f h e lt ne =
      unfold clear_const in clear_const-eq r f.bit_mask h e lt ne ∙ clear_bits-eq r f.bit_mask h e

  -- On a CSR, setting a field writes the old value with the field's bits one, clearing it the old
  -- value with those bits zero; every other bit is kept.
  pub switch_bits :
      (r : Reg) (f : Field) (h : Hart)
      → is_csr r ≡ true
      → IsRun f
      → 0 < f.bit_width
      → h.reg r < 2 ^ 64
      → (s : ℕ) × (t : ℕ) × (Field.set r f h ≡ some (tt, put r s h))
        × (Field.clear r f h ≡ some (tt, put r t h))
        × ((i : ℕ) → bit_at i s ≡ (if in_field f i then 1 else bit_at i (h.reg r)))
        × ((i : ℕ) → bit_at i t ≡ (if in_field f i then 0 else bit_at i (h.reg r)))
  switch_bits r f h e run pos lt = (
    bit_or (h.reg r) f.bit_mask,
    bit_and (h.reg r) (not64 f.bit_mask),
    set-eq r f h e (mask-lt f run) (mask-pos f run pos),
    clear-eq r f h e (mask-lt f run) (mask-pos f run pos),
    λ i. ground (
      arith,
      bit_at-bit_or i (h.reg r) f.bit_mask,
      bit_at-mask f run i,
      bit_at-le-one i (h.reg r),
    ),
    λ i. bit_at_kept f run (h.reg r) i lt,
  )
