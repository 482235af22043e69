-- ===== src/RegisterInfo/Sequence.antt =====
-- Several fields of one register written one after the other.
use cpu_io.Base.{
  ℕ, ◌^◌, ◌<◌, ◌≡◌, inl, inr, Bool, true, ◌&&◌, ◌==◌, List, [], ◌∷◌, ap, sym, ◌∙◌, arith, refl,
  ==_iff, Bool-cases, if◌then◌else◌, not, bit_at,
}
use native.Mathlib.Nat.{mod-eq_of_lt}
use cpu_io.RegisterInfo.{Field, cast, get_value, insert, in_field}
use cpu_io.RegisterInfo.Laws.{
  IsRun, bit_at-insert, get_value-insert, get_value-insert_other, insert-lt,
}
use cpu_io.RegisterInfo.Table.{
  Among, well_described, well_formed-IsRun, well_formed_of_Among, apart_of_described,
  same_of_described, cast_of_fits,
}

-- The fields are described, and the values fit in them.
abbrev pub Fits : List Field → List (Field × ℕ) → Type 0
Fits fs [] = Unit {0}
Fits fs ((f, v) ∷ ws) = Among f fs × (v < 2 ^ f.bit_width) × Fits fs ws

abbrev pub inserts : List (Field × ℕ) → ℕ → ℕ
inserts [] org = org
inserts ((f, v) ∷ ws) org = inserts ws (insert f org v)

-- The last value that the list has for a field, or else the given one.
abbrev pub latest : Field → List (Field × ℕ) → ℕ → ℕ
latest f [] old = old
latest f ((g, v) ∷ ws) old = latest f ws (if g.bit_offset == f.bit_offset then v else old)

-- No field of the list has bit i.
abbrev pub untouched : List (Field × ℕ) → ℕ → Bool
untouched [] i = true
untouched ((f, v) ∷ ws) i = not (in_field f i) && untouched ws i

module _ (fs : List Field) (described : well_described fs ≡ true) where
  described-IsRun : (f : Field) → Among f fs → IsRun f
  described-IsRun f m = well_formed-IsRun f (well_formed_of_Among f fs described m)

  -- One insertion, read back through any field of the register.
  get_value-insert_any :
      (f g : Field) (v org : ℕ)
      → Among f fs
      → Among g fs
      → v < 2 ^ g.bit_width
      → org < 2 ^ 64
      → get_value f (insert g org v) ≡ (if g.bit_offset == f.bit_offset then v else get_value f org)
  get_value-insert_any f g v org mf mg fits lt = elim (Bool-cases (g.bit_offset == f.bit_offset)) [
    | inl e ↦ rw e (
        ap (λ (x : Field). get_value x (insert g org v))
          (same_of_described f g fs described mf mg (sym ((==_iff g.bit_offset f.bit_offset).0 e)))
        ∙ get_value-insert g (described-IsRun g mg) org v lt
        ∙ ap (cast g.data_type) (mod-eq_of_lt fits)
        ∙ cast_of_fits g v (well_formed_of_Among g fs described mg) fits)
    | inr e ↦ rw e (
        get_value-insert_other g f (described-IsRun g mg) (described-IsRun f mf)
          (apart_of_described g f fs described mg mf (ground arith)) org v lt)
  ]

  pub get_value-inserts :
      (f : Field) (ws : List (Field × ℕ)) (org : ℕ)
      → Among f fs
      → Fits fs ws
      → org < 2 ^ 64
      → get_value f (inserts ws org) ≡ latest f ws (get_value f org)
  get_value-inserts f [] org m fit lt = refl
  get_value-inserts f ((g, v) ∷ ws) org m fit lt =
      get_value-inserts f ws (insert g org v) m fit.2
        (insert-lt g (described-IsRun g fit.0) org v lt)
      ∙ ap (latest f ws) (get_value-insert_any f g v org m fit.0 fit.1 lt)

  pub inserts-lt :
      (ws : List (Field × ℕ)) (org : ℕ) → Fits fs ws → org < 2 ^ 64 → inserts ws org < 2 ^ 64
  inserts-lt [] org fit lt = lt
  inserts-lt ((g, v) ∷ ws) org fit lt =
      inserts-lt ws (insert g org v) fit.2 (insert-lt g (described-IsRun g fit.0) org v lt)

  pub bit_at-inserts :
      (ws : List (Field × ℕ)) (org i : ℕ)
      → Fits fs ws
      → org < 2 ^ 64
      → untouched ws i ≡ true
      → bit_at i (inserts ws org) ≡ bit_at i org
  bit_at-inserts [] org i fit lt e = refl
  bit_at-inserts ((g, v) ∷ ws) org i fit lt e =
      bit_at-inserts ws (insert g org v) i fit.2 (insert-lt g (described-IsRun g fit.0) org v lt)
        (ground arith)
      ∙ ground (arith, bit_at-insert g (described-IsRun g fit.0) org v i lt)
