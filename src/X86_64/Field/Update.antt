-- ===== src/X86_64/Field/Update.antt =====
-- The field templates of include/x86_64/regs/read_write.hpp, and the bits of RFLAGS.
use cpu_io.Base.{
  ℕ, inl, inr, ltb, refl, ◌+◌, ◌^◌, ◌≤◌, ◌<◌, ◌≡◌, ◌⊎◌, true, arith, bit_and, bit_or, bit_at-le-one,
  ◌∙◌, ap, some, bit_at, bit_at-bit_or, bit_at-bit_and, bit_at-not64, bit_at-eq-zero, bit_at-ones,
  not64, shl64, if◌then◌else◌, ◌==◌, Bool-cases, ==_iff,
}
use native.Mathlib.Nat.{mod-eq_of_lt}
use cpu_io.RegisterInfo.{cast, Field, get_value, insert}
use cpu_io.RegisterInfo.Laws.{IsRun, get_value-insert, get_value-insert_other, ones-lt}
use cpu_io.X86_64.Machine.{Reg, gdtr, idtr, rflags, Stores, Cpu, traced, put, update, ◌>>=◌}
use cpu_io.X86_64.ReadWrite.{set_bits, clear_bits, int_bit, write}
use cpu_io.X86_64.ReadWrite.Laws.{is_word, read-eq, write-eq}
use cpu_io.X86_64.Field

pub get-eq :
    (r : Reg) (f : Field) (c : Cpu)
    → is_word r ≡ true
    → Field.get r f c ≡ some (get_value f (c.reg r), c)
unfolding Field.get
get-eq r f c e = rw (read-eq r c e, ◌>>=◌)

pub bit_at-two-pow : (off i : ℕ) → bit_at i (2 ^ off) ≡ (if i == off then 1 else 0)
bit_at-two-pow off i = ground (arith, bit_at-ones 1 off i)

module _ ⦃w : Stores⦄ where
  pub write-insert :
      (r : Reg) (f : Field) (v : ℕ) (c : Cpu)
      → is_word r ≡ true
      → Field.write r f v c ≡ some (tt, put r (insert f (c.reg r) (cast f.data_type v)) c)
  unfolding Field.write
  write-insert gdtr f v c e = cc
  write-insert idtr f v c e = cc
  write-insert r f v c e = rw (read-eq r c e, ◌>>=◌) (write-eq r _ c e)

  -- A value of the field's type and width, written to a 64-bit register that stores the result, is
  -- read back; a field that shares no bit with it reads as before, and no other register changes.
  pub get-write_word :
      (r : Reg) (f g : Field) (v : ℕ) (c : Cpu)
      → is_word r ≡ true
      → IsRun f
      → IsRun g
      → (f.bit_offset + f.bit_width ≤ g.bit_offset) ⊎ (g.bit_offset + g.bit_width ≤ f.bit_offset)
      → c.reg r < 2 ^ 64
      → cast f.data_type v ≡ v
      → v < 2 ^ f.bit_width
      → w.reg_value r (c.reg r) (insert f (c.reg r) v) ≡ insert f (c.reg r) v
      → (c' : Cpu) × (Field.write r f v c ≡ some (tt, c'))
        × (Field.get r f c' ≡ some (v, c'))
        × (Field.get r g c' ≡ some (get_value g (c.reg r), c'))
        × (c' ≡ record c { reg = update c.reg r (c'.reg r); events = traced r c.events })
  get-write_word r f g v c e run rg apart lt typed fits a = (
    c',
    rw (write-insert r f v c e, typed),
    get-eq r f c' e ∙ ap (λ (t : ℕ). some (t, c')) (ap (get_value f) stored ∙ back),
    get-eq r g c' e
        ∙ ap (λ (t : ℕ). some (t, c'))
            (ap (get_value g) stored ∙ get_value-insert_other f g run rg apart (c.reg r) v lt),
    rw stored (rw a),
  )
    where
      c' : Cpu
      c' = put r (insert f (c.reg r) v) c

      stored : c'.reg r ≡ insert f (c.reg r) v
      stored = ground arith

      back : get_value f (insert f (c.reg r) v) ≡ v
      back =
          get_value-insert f run (c.reg r) v lt ∙ ap (cast f.data_type) (mod-eq_of_lt fits) ∙ typed

  set_flag-eq :
      (off : ℕ) (c : Cpu)
      → off < 31
      → set_bits rflags off c ≡ some (tt, put rflags (bit_or (c.reg rflags) (2 ^ off)) c)
  unfolding set_bits int_bit write
  set_flag-eq off c lt = elim (Bool-cases (off == 9)) [
    | inl e ↦ rw e (rw ((==_iff off 9).0 e) refl)
    | inr e ↦ let small : ltb off 31 ≡ true = ground arith in rw (e, small) refl
  ]

  clear_flag-eq :
      (off : ℕ) (c : Cpu)
      → off < 64
      → clear_bits rflags off c ≡ some (tt, put rflags (bit_and (c.reg rflags) (not64 (2 ^ off))) c)
  unfolding clear_bits write
  clear_flag-eq off c lt = elim (Bool-cases (off == 9)) [
    | inl e ↦ rw e (rw ((==_iff off 9).0 e) refl)
    | inr e ↦
        let one : shl64 1 off ≡ 2 ^ off = omega (arith, ones-lt 1 off (omega arith)) in
        rw (e, one) refl
  ]

  -- `SetBits` of a flag below bit 31 of RFLAGS hands the processor the old value with that bit one,
  -- and `ClearBits` the old value with that bit zero, the interrupt flag's own instructions
  -- included; every other bit is kept.
  pub switch_flag :
      (off : ℕ) (c : Cpu)
      → off < 31
      → c.reg rflags < 2 ^ 64
      → (s : ℕ) × (t : ℕ) × (set_bits rflags off c ≡ some (tt, put rflags s c))
        × (clear_bits rflags off c ≡ some (tt, put rflags t c))
        × ((i : ℕ) → bit_at i s ≡ (if i == off then 1 else bit_at i (c.reg rflags)))
        × ((i : ℕ) → bit_at i t ≡ (if i == off then 0 else bit_at i (c.reg rflags)))
  switch_flag off c lt word = (
    bit_or (c.reg rflags) (2 ^ off),
    bit_and (c.reg rflags) (not64 (2 ^ off)),
    set_flag-eq off c lt,
    clear_flag-eq off c (omega arith),
    λ i. ground (
      arith,
      bit_at-bit_or i (c.reg rflags) (2 ^ off),
      bit_at-two-pow off i,
      bit_at-le-one i (c.reg rflags),
    ),
    λ i. ground (
      arith,
      bit_at-bit_and i (c.reg rflags) (not64 (2 ^ off)),
      bit_at-not64 i (2 ^ off) (omega (arith, ones-lt 1 off (omega arith))),
      bit_at-two-pow off i,
      bit_at-eq-zero 64 i (c.reg rflags) word,
      bit_at-le-one i (c.reg rflags),
    ),
  )
