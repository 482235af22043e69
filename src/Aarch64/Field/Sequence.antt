-- ===== src/Aarch64/Field/Sequence.antt =====
-- Several fields of one register written one after the other, by the templates of
-- include/aarch64/regs/read_write.hpp.
use cpu_io.Base.{ℕ, ◌-◌, ◌^◌, ◌<◌, ◌≡◌, ◌≢◌, true, List, [], ◌∷◌, ap, ◌∙◌, arith, refl, some}
use cpu_io.RegisterInfo.{Field, insert}
use cpu_io.RegisterInfo.Laws.{insert-lt, bit_or-mask, bit_and-not-mask}
use cpu_io.RegisterInfo.Table.{Among, well_formed_of_Among, cast_of_fits}
use cpu_io.RegisterInfo.Sequence.{Fits, inserts}
use cpu_io.Aarch64.Machine.{Reg, index, Stores, Core, M, put, ◌>>=◌, ◌>>◌}
use cpu_io.Aarch64.Info.Fields.{fields}
use cpu_io.Aarch64.ReadWrite.Laws.{is_word, can_set, can_clear, set_bits-eq, clear_bits-eq}
use cpu_io.Aarch64.Field
use cpu_io.Aarch64.Field.Update.{fields-well_described, field-IsRun, write-insert}

-- The register now holds the value; all else of the core is as before.
abbrev pub Changed : Reg → ℕ → Core → Core → Type 0
Changed r v c c' =
    (c'.reg r ≡ v) × ((q : Reg) → index q ≢ index r → c'.reg q ≡ c.reg q) × (c'.events ≡ c.events)

-- The statements `act` on each field and value, then `next`.
abbrev pub edits : (Field → ℕ → M (Unit {0})) → List (Field × ℕ) → M (Unit {0}) → M (Unit {0})
edits act [] next = next
edits act ((f, v) ∷ ws) next = act f v >> edits act ws next

module _ ⦃w : Stores⦄ where
  -- The core stores what differs from the register's value in one described field only.
  abbrev pub KeepsFields : Reg → Type 0
  KeepsFields r =
      (f : Field) (o v : ℕ) → Among f (fields r) → w.value r o (insert f o v) ≡ insert f o v

  -- Each statement inserts its value.
  abbrev pub Inserts : Reg → (Field → ℕ → M (Unit {0})) → List (Field × ℕ) → Type 0
  Inserts r act [] = Unit {0}
  Inserts r act ((f, v) ∷ ws) =
      ((c : Core) → c.reg r < 2 ^ 64 → act f v c ≡ some (tt, put r (insert f (c.reg r) v) c))
      × Inserts r act ws

  pub write-Inserts :
      (r : Reg) (ws : List (Field × ℕ))
      → is_word r ≡ true
      → Fits (fields r) ws
      → Inserts r (Field.write r) ws
  write-Inserts r [] e fit = tt
  write-Inserts r ((f, v) ∷ ws) e fit = (
    λ c lt.
        rw
          (
            write-insert r f v c e,
            cast_of_fits f v (well_formed_of_Among f (fields r) (fields-well_described r) fit.0)
                fit.1,
          )
          refl,
    write-Inserts r ws e fit.2,
  )

  pub set-insert :
      (r : Reg) (f : Field) (c : Core)
      → can_set r ≡ true
      → Among f (fields r)
      → c.reg r < 2 ^ 64
      → Field.set r f c ≡ some (tt, put r (insert f (c.reg r) (2 ^ f.bit_width - 1)) c)
  unfolding Field.set
  set-insert r f c e m lt =
      rw (set_bits-eq r f.bit_mask c, e, bit_or-mask f (field-IsRun r f m) (c.reg r) lt) refl

  pub clear-insert :
      (r : Reg) (f : Field) (c : Core)
      → can_clear r ≡ true
      → Among f (fields r)
      → c.reg r < 2 ^ 64
      → Field.clear r f c ≡ some (tt, put r (insert f (c.reg r) 0) c)
  unfolding Field.clear
  clear-insert r f c e m lt =
      rw (clear_bits-eq r f.bit_mask c, e, bit_and-not-mask f (field-IsRun r f m) (c.reg r) lt) refl

  pub edits-eq :
      (r : Reg) (act : Field → ℕ → M (Unit {0})) (ws : List (Field × ℕ)) (next : M (Unit {0}))
      (c : Core)
      → KeepsFields r
      → Fits (fields r) ws
      → Inserts r act ws
      → c.reg r < 2 ^ 64
      → (c' : Core) × (edits act ws next c ≡ next c') × Changed r (inserts ws (c.reg r)) c c'
  edits-eq r act [] next c keeps fit acts lt = (c, refl, (refl, λ q ne. refl, refl))
  edits-eq r act ((f, v) ∷ ws) next c keeps fit acts lt =
      let rest =
        edits-eq r act ws next first keeps fit.2 acts.1
          (rw stored (insert-lt f (field-IsRun r f fit.0) (c.reg r) v lt)) in
      (
        rest.0,
        rw (acts.0 c lt, ◌>>◌, ◌>>=◌) rest.1,
        (rest.2.0 ∙ ap (inserts ws) stored, λ q ne. rest.2.1 q ne ∙ ground arith, rest.2.2),
      )
    where
      first : Core
      first = put r (insert f (c.reg r) v) c

      stored : first.reg r ≡ insert f (c.reg r) v
      stored = ground (arith, keeps f (c.reg r) v fit.0)
