-- ===== src/Riscv64/Paging/Satp.antt =====
-- The page table register: EnablePage, DisablePage and SetPageDirectory of
-- include/riscv64/virtual_memory.hpp.
use mathlib.Core.Path.{fun_ext}
use cpu_io.Base.{
  ℕ, ◌+◌, ◌*◌, ◌/◌, ◌%◌, ◌^◌, ◌≤◌, ◌<◌, ◌≡◌, ◌⊎◌, inl, inr, arith, ◌∙◌, ap, some, refl, shr,
}
use cpu_io.RegisterInfo.{cast, Field, insert}
use cpu_io.RegisterInfo.Laws.{IsRun, insert-eq}
use cpu_io.Riscv64.Hart.{Reg, satp, Csrs, Hart, update, ◌>>=◌}
use cpu_io.Riscv64.Info.{satp_asid, satp_mode, satp_ppn}
use cpu_io.Riscv64.Field
use cpu_io.Riscv64.Field.Update.{write-insert}
use cpu_io.Riscv64.Paging.{enable_page, disable_page, set_page_directory}

pub satp_asid-IsRun : IsRun satp_asid
satp_asid-IsRun = record { fits = omega arith; ones = refl }

pub satp_mode-IsRun : IsRun satp_mode
satp_mode-IsRun = record { fits = omega arith; ones = refl }

pub satp_ppn-IsRun : IsRun satp_ppn
satp_ppn-IsRun = record { fits = omega arith; ones = refl }

-- The hart with another value in satp.
abbrev pub with_satp : Hart → ℕ → Hart
with_satp h v = record h { reg = update h.reg satp v }

with_satp-with_satp : (h : Hart) (v w : ℕ) → with_satp (with_satp h v) w ≡ with_satp h w
with_satp-with_satp h v w = λ i. record { reg = fun_ext (λ q. same q) i; fences = h.fences }
  where
    same : (q : Reg) → (with_satp (with_satp h v) w).reg q ≡ (with_satp h w).reg q
    same q = ground arith

module _ ⦃c : Csrs⦄ where
  -- A hart with Sv39 and page tables in the pages below a number stores as they are written the
  -- values of mode Sv39 with address space 0 and such a page, and of the values of mode Bare the one
  -- of which the other fields are zero too, as software has to write them in this mode.
  pub record HasSv39 (pages : ℕ) : Type 0 where
    pub numbers : pages ≤ 2 ^ 44
    pub stored :
        (o v : ℕ) → (v ≡ 0) ⊎ ((8 * 2 ^ 60 ≤ v) × (v < 8 * 2 ^ 60 + pages)) → c.legal satp o v ≡ v

  write-eq_of_accepted :
      (f : Field) (v n : ℕ) (h : Hart)
      → insert f (h.reg satp) (cast f.data_type v) ≡ n
      → c.legal satp (h.reg satp) n ≡ n
      → Field.write satp f v h ≡ some (tt, with_satp h n)
  write-eq_of_accepted f v n h e a = rw (write-insert satp f v h refl, e, a)

  -- On a hart with Sv39 whose satp is zero or of mode Sv39 with address space 0, `EnablePage` sets
  -- the mode to Sv39 and keeps the page and all else of the hart.
  pub enable_page-eq :
      (h : Hart) (pages p : ℕ)
      → HasSv39 pages
      → p < pages
      → ((h.reg satp ≡ 0) × (p ≡ 0)) ⊎ (h.reg satp ≡ 8 * 2 ^ 60 + p)
      → enable_page h ≡ some (tt, with_satp h (8 * 2 ^ 60 + p))
  unfolding enable_page cast
  enable_page-eq h pages p sv39 lt value =
      rw (asid_write, ◌>>=◌)
        (mode_write ∙ ap (λ (x : Hart). some (tt, x)) (with_satp-with_satp h _ _))
    where
      asid_write : Field.write satp satp_asid 0 h ≡ some (tt, with_satp h (h.reg satp))
      asid_write =
          write-eq_of_accepted satp_asid 0 _ h
            (omega (arith, value, sv39.numbers, insert-eq satp_asid satp_asid-IsRun (h.reg satp) 0))
            (sv39.stored _ _ (ground (arith, value)))

      mode_write :
          Field.write satp satp_mode 8 (with_satp h (h.reg satp))
          ≡ some (tt, with_satp (with_satp h (h.reg satp)) (8 * 2 ^ 60 + p))
      mode_write =
          write-eq_of_accepted satp_mode 8 _ (with_satp h (h.reg satp))
            (omega (arith, value, sv39.numbers, insert-eq satp_mode satp_mode-IsRun (h.reg satp) 8))
            (sv39.stored _ _ (inr (omega arith, omega arith)))

  -- On a hart with Sv39 whose satp names no page, `DisablePage` sets it to zero.
  pub disable_page-eq :
      (h : Hart) (pages : ℕ)
      → HasSv39 pages
      → (h.reg satp ≡ 0) ⊎ (h.reg satp ≡ 8 * 2 ^ 60)
      → disable_page h ≡ some (tt, with_satp h 0)
  unfolding disable_page cast
  disable_page-eq h pages sv39 value =
      write-eq_of_accepted satp_mode 0 0 h
        (omega (arith, value, insert-eq satp_mode satp_mode-IsRun (h.reg satp) 0))
        (sv39.stored _ _ (inl refl))

  -- On a hart with Sv39, `SetPageDirectory` of an address in a page of the hart puts the page into
  -- satp and keeps all else of the hart, in mode Sv39; where satp is zero, this is so for page 0.
  pub set_page_directory-eq :
      (pgd new : ℕ) (h : Hart) (pages : ℕ)
      → HasSv39 pages
      → pgd / 4096 < pages
      → h.reg satp / 2 ^ 44 * 2 ^ 44 + pgd / 4096 ≡ new
      → (new ≡ 0) ⊎ (new ≡ 8 * 2 ^ 60 + pgd / 4096)
      → set_page_directory pgd h ≡ some (tt, with_satp h new)
  unfolding set_page_directory cast
  set_page_directory-eq pgd new h pages sv39 lt whole value =
      write-eq_of_accepted satp_ppn (shr pgd 12) new h
        (omega (
          arith,
          sv39.numbers,
          insert-eq satp_ppn satp_ppn-IsRun (h.reg satp) (pgd / 2 ^ 12 % 2 ^ 64),
        ))
        (sv39.stored _ _ (ground (arith, value)))
