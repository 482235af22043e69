-- ===== src/Riscv64/Cpu/Laws.antt =====
-- Interrupt control and the trap vector of include/riscv64.
use mathlib.Core.Path.{fun_ext, ap₂}
use native.Mathlib.Nat.{mod-eq_of_lt}
use cpu_io.Base.{
  ℕ, ◌+◌, ◌*◌, ◌/◌, ◌%◌, ◌^◌, ◌≤◌, ◌<◌, ◌≡◌, inl, inr, Bool-cases, Option, Bool, true, false, arith,
  ◌∙◌, ap, some, refl, shl64, if◌then◌else◌, ◌==◌, ◌!=◌, bit_and, bit_or, not64, bit_and-ones,
  bit_or-add, bit_or_comm,
}
use cpu_io.RegisterInfo.{cast, insert}
use cpu_io.RegisterInfo.Laws.{IsRun, insert-eq, get_value-eq, bit_or-mask, bit_and-not-mask}
use cpu_io.Riscv64.Hart.{Reg, sstatus, stvec, Csrs, Hart, put, update, ◌>>=◌}
use cpu_io.Riscv64.Info.{sstatus_sie, stvec_base, stvec_mode}
use cpu_io.Riscv64.Field
use cpu_io.Riscv64.Field.Update.{get-eq, write-insert, set-eq, clear-eq}
use cpu_io.Riscv64.Cpu.{set_direct, enable_interrupt, disable_interrupt, get_interrupt_status}

sstatus_sie-IsRun : IsRun sstatus_sie
sstatus_sie-IsRun = record { fits = omega arith; ones = refl }

stvec_mode-IsRun : IsRun stvec_mode
stvec_mode-IsRun = record { fits = omega arith; ones = refl }

-- The hart with another value in one register.
abbrev pub with_reg : Reg → Hart → ℕ → Hart
with_reg r h v = record h { reg = update h.reg r v }

with_reg-with_reg : (r : Reg) (h : Hart) (v w : ℕ) → with_reg r (with_reg r h v) w ≡ with_reg r h w
with_reg-with_reg r h v w = λ i. record { reg = fun_ext (λ q. same q) i; fences = h.fences }
  where
    same : (q : Reg) → (with_reg r (with_reg r h v) w).reg q ≡ (with_reg r h w).reg q
    same q = ground arith

-- The base field is all but the two low bits, which hold the mode.
stvec_base-insert :
    (org addr : ℕ)
    → org < 2 ^ 64
    → addr < 2 ^ 64
    → addr % 4 ≡ 0
    → insert stvec_base org addr ≡ addr + org % 4
unfolding insert
stvec_base-insert org addr lt fits aligned =
    bit_or_comm (bit_and org 3) (bit_and (shl64 addr 0) (not64 3))
    ∙ ap₂ bit_or high low
    ∙ bit_or-add 2 (addr / 4) (org % 4) (omega arith)
    ∙ omega arith
  where
    low : bit_and org 3 ≡ org % 4
    low = omega (arith, bit_and-ones 2 0 org)

    high : bit_and (shl64 addr 0) (not64 3) ≡ addr / 4 * 2 ^ 2
    high = omega (arith, bit_and-ones 62 2 (shl64 addr 0))

-- The status is bit 1 of sstatus.
pub get_interrupt_status-eq :
    (h : Hart) → get_interrupt_status h ≡ some (h.reg sstatus / 2 % 2 == 1, h)
unfolding get_interrupt_status cast
get_interrupt_status-eq h =
    rw (get-eq sstatus sstatus_sie h, ◌>>=◌)
      (ground (arith, get_value-eq sstatus_sie sstatus_sie-IsRun (h.reg sstatus)))

module _ ⦃c : Csrs⦄ where
  put-eq_of_accepted :
      (r : Reg) (n m : ℕ) (h : Hart)
      → n ≡ m
      → c.legal r (h.reg r) m ≡ m
      → ◌≡◌ {A = Option (Unit {0} × Hart)} (some (tt, put r n h)) (some (tt, with_reg r h m))
  put-eq_of_accepted r n m h e a = rw e (rw a)

  -- The hart stores a new sstatus as written where only the SIE bit may differ from the old one.
  abbrev pub TogglesSie : Type 0
  TogglesSie = (o v : ℕ) → o / 4 ≡ v / 4 → o % 2 ≡ v % 2 → c.legal sstatus o v ≡ v

  -- On a hart whose SIE bit can be written, after `EnableInterrupt` the status is true, after
  -- `DisableInterrupt` it is false, and both change no other bit of sstatus and nothing else.
  pub interrupt_switch :
      (h : Hart)
      → TogglesSie
      → h.reg sstatus < 2 ^ 64
      → (e : Hart) × (d : Hart) × (enable_interrupt h ≡ some (tt, e))
        × (get_interrupt_status e ≡ some (true, e))
        × (disable_interrupt h ≡ some (tt, d))
        × (get_interrupt_status d ≡ some (false, d))
        × (e ≡ with_reg sstatus h (h.reg sstatus / 4 * 4 + 2 + h.reg sstatus % 2))
        × (d ≡ with_reg sstatus h (h.reg sstatus / 4 * 4 + h.reg sstatus % 2))
  unfolding enable_interrupt disable_interrupt
  interrupt_switch h sie lt = (
    with_reg sstatus h on,
    with_reg sstatus h off,
    set-eq sstatus sstatus_sie h refl (omega arith) (omega arith)
        ∙ put-eq_of_accepted sstatus _ on h
            (bit_or-mask sstatus_sie sstatus_sie-IsRun (h.reg sstatus) lt
              ∙ omega (arith, insert-eq sstatus_sie sstatus_sie-IsRun (h.reg sstatus) 1 lt))
            (sie _ _ (omega arith) (omega arith)),
    get_interrupt_status-eq (with_reg sstatus h on)
        ∙ ap (λ (b : Bool). some (b, with_reg sstatus h on)) (ground arith),
    clear-eq sstatus sstatus_sie h refl (omega arith) (omega arith)
        ∙ put-eq_of_accepted sstatus _ off h
            (bit_and-not-mask sstatus_sie sstatus_sie-IsRun (h.reg sstatus) lt
              ∙ omega (arith, insert-eq sstatus_sie sstatus_sie-IsRun (h.reg sstatus) 0 lt))
            (sie _ _ (omega arith) (omega arith)),
    get_interrupt_status-eq (with_reg sstatus h off)
        ∙ ap (λ (b : Bool). some (b, with_reg sstatus h off)) (ground arith),
    refl,
    refl,
  )
    where
      on : ℕ
      on = h.reg sstatus / 4 * 4 + 2 + h.reg sstatus % 2

      off : ℕ
      off = h.reg sstatus / 4 * 4 + h.reg sstatus % 2

  -- On a hart that stores every stvec value of mode Direct or Vectored, and holds one of these,
  -- `SetDirect` of a 64-bit address that is 4-byte aligned returns true and leaves exactly the
  -- address in stvec, mode Direct; of any other it returns false and changes nothing.
  pub set_direct_lem :
      (addr : ℕ) (h : Hart)
      → ((o v : ℕ) → v % 4 ≤ 1 → c.legal stvec o v ≡ v)
      → h.reg stvec % 4 ≤ 1
      → h.reg stvec < 2 ^ 64
      → addr < 2 ^ 64
      → set_direct addr h
        ≡ (if addr % 4 == 0 then some (true, with_reg stvec h addr) else some (false, h))
  unfolding set_direct
  set_direct_lem addr h stores mode lt fits = elim (Bool-cases (addr % 4 == 0)) [
    | inl aligned ↦
        let test : (bit_and addr 0x3 != 0) ≡ false = ground (arith, bit_and-ones 2 0 addr) in
        rw (test, aligned, ◌>>=◌)
          (rw (base_write (ground arith), ◌>>=◌)
            (rw (mode_write (ground arith), ◌>>=◌)
              (ap (λ (x : Hart). some (true, x)) (with_reg-with_reg stvec h _ _))))
    | inr odd ↦
        let test : (bit_and addr 0x3 != 0) ≡ true = ground (arith, bit_and-ones 2 0 addr) in
        rw (test, odd)
  ]
    where
      mid : ℕ
      mid = addr + h.reg stvec % 4

      base_write :
          addr % 4 ≡ 0 → Field.write stvec stvec_base addr h ≡ some (tt, with_reg stvec h mid)
      base_write aligned =
          write-insert stvec stvec_base addr h refl
          ∙ put-eq_of_accepted stvec _ mid h
              (unfold cast in
                rw (mod-eq_of_lt fits) (stvec_base-insert (h.reg stvec) addr lt fits aligned))
              (stores _ _ (omega arith))

      mode_write :
          addr % 4 ≡ 0
          → Field.write stvec stvec_mode 0 (with_reg stvec h mid)
            ≡ some (tt, with_reg stvec (with_reg stvec h mid) addr)
      mode_write aligned =
          write-insert stvec stvec_mode 0 (with_reg stvec h mid) refl
          ∙ put-eq_of_accepted stvec _ addr (with_reg stvec h mid)
              (unfold cast in
                omega (arith, insert-eq stvec_mode stvec_mode-IsRun mid 0 (omega arith)))
              (stores _ _ (omega arith))
