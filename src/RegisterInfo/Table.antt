-- ===== src/RegisterInfo/Table.antt =====
-- When the bit fields that a register_info.hpp describes for one register fit together.
use cpu_io.Base.{
  ℕ, ◌+◌, ◌-◌, ◌*◌, ◌^◌, ◌≤◌, ◌<◌, ◌≡◌, ◌≢◌, ◌⊎◌, inl, inr, Bool, true, ◌&&◌, ◌||◌, leb, ◌==◌, List,
  [], ◌∷◌, ap, sym, ◌∙◌, arith, leb→le, Bool-cases,
}
use native.Mathlib.Nat.{pow-le-pow_right}
use cpu_io.RegisterInfo.{DataType, bool, uint8, uint16, uint32, uint64, Field, cast}
use cpu_io.RegisterInfo.Laws.{IsRun}

-- The number of bits that the values of a type have.
abbrev pub type_width : DataType → ℕ
type_width bool = 1
type_width uint8 = 8
type_width uint16 = 16
type_width uint32 = 32
type_width uint64 = 64

-- The field has bits, lies in a 64-bit word, its mask is a run of ones there, and its type holds its
-- values.
abbrev pub well_formed : Field → Bool
well_formed f =
    leb 1 f.bit_width
    && leb (f.bit_offset + f.bit_width) 64
    && f.bit_mask == (2 ^ f.bit_width - 1) * 2 ^ f.bit_offset
    && leb f.bit_width (type_width f.data_type)

abbrev pub apart : Field → Field → Bool
apart f g =
    leb (f.bit_offset + f.bit_width) g.bit_offset || leb (g.bit_offset + g.bit_width) f.bit_offset

abbrev pub apart_from_all : Field → List Field → Bool
apart_from_all f [] = true
apart_from_all f (g ∷ gs) = apart f g && apart_from_all f gs

-- Every field is well formed, and no two of them share a bit.
abbrev pub well_described : List Field → Bool
well_described [] = true
well_described (f ∷ fs) = well_formed f && apart_from_all f fs && well_described fs

-- The field is one of the list.
abbrev pub Among : Field → List Field → Type 0
Among f [] = ⊥
Among f (g ∷ gs) = (f ≡ g) ⊎ Among f gs

pub well_formed-IsRun : (f : Field) → well_formed f ≡ true → IsRun f
well_formed-IsRun f h = record { fits = ground arith; ones = ground arith }

pub well_formed_of_Among :
    (f : Field) (fs : List Field) → well_described fs ≡ true → Among f fs → well_formed f ≡ true
well_formed_of_Among f [] h m = absurd m
well_formed_of_Among f (g ∷ gs) h (inl e) = rw e (ground arith)
well_formed_of_Among f (g ∷ gs) h (inr m) = well_formed_of_Among f gs (ground arith) m

apart_of_Among :
    (f g : Field) (fs : List Field) → apart_from_all f fs ≡ true → Among g fs → apart f g ≡ true
apart_of_Among f g [] h m = absurd m
apart_of_Among f g (x ∷ xs) h (inl e) = rw e (ground arith)
apart_of_Among f g (x ∷ xs) h (inr m) = apart_of_Among f g xs (ground arith) m

apart_sound :
    (f g : Field)
    → apart f g ≡ true
    → (f.bit_offset + f.bit_width ≤ g.bit_offset) ⊎ (g.bit_offset + g.bit_width ≤ f.bit_offset)
apart_sound f g h = elim (Bool-cases (leb (f.bit_offset + f.bit_width) g.bit_offset)) [
  | inl e ↦ inl (leb→le _ _ e)
  | inr e ↦ inr (leb→le _ _ (ground arith))
]

overlap :
    (f g : Field)
    → f.bit_offset ≡ g.bit_offset
    → well_formed f ≡ true
    → well_formed g ≡ true
    → apart f g ≡ true
    → ⊥
overlap f g e wf wg h = elim (apart_sound f g h) [
  | inl l ↦ omega (arith, leb→le 1 f.bit_width (ground arith))
  | inr l ↦ omega (arith, leb→le 1 g.bit_width (ground arith))
]

swap {ℓ κ} : {A : Type ℓ} {B : Type κ} → A ⊎ B → B ⊎ A
swap (inl a) = inr a
swap (inr b) = inl b

-- Two fields of one description that start at different bits share no bit.
pub apart_of_described :
    (f g : Field) (fs : List Field)
    → well_described fs ≡ true
    → Among f fs
    → Among g fs
    → f.bit_offset ≢ g.bit_offset
    → (f.bit_offset + f.bit_width ≤ g.bit_offset) ⊎ (g.bit_offset + g.bit_width ≤ f.bit_offset)
apart_of_described f g [] h mf mg ne = absurd mf
apart_of_described f g (x ∷ xs) h (inl ef) (inl eg) ne =
    absurd (ne (ap (λ (t : Field). t.bit_offset) (ef ∙ sym eg)))
apart_of_described f g (x ∷ xs) h (inl ef) (inr mg) ne =
    apart_sound f g (rw ef (apart_of_Among x g xs (ground arith) mg))
apart_of_described f g (x ∷ xs) h (inr mf) (inl eg) ne =
    swap (apart_sound g f (rw eg (apart_of_Among x f xs (ground arith) mf)))
apart_of_described f g (x ∷ xs) h (inr mf) (inr mg) ne =
    apart_of_described f g xs (ground arith) mf mg ne

-- Two fields of one description that start at the same bit are the same.
pub same_of_described :
    (f g : Field) (fs : List Field)
    → well_described fs ≡ true
    → Among f fs
    → Among g fs
    → f.bit_offset ≡ g.bit_offset
    → f ≡ g
same_of_described f g [] h mf mg e = absurd mf
same_of_described f g (x ∷ xs) h (inl ef) (inl eg) e = ef ∙ sym eg
same_of_described f g (x ∷ xs) h (inl ef) (inr mg) e = absurd (
    overlap f g e (rw ef (ground arith)) (well_formed_of_Among g xs (ground arith) mg)
      (rw ef (apart_of_Among x g xs (ground arith) mg)))
same_of_described f g (x ∷ xs) h (inr mf) (inl eg) e = absurd (
    overlap g f (sym e) (rw eg (ground arith)) (well_formed_of_Among f xs (ground arith) mf)
      (rw eg (apart_of_Among x f xs (ground arith) mf)))
same_of_described f g (x ∷ xs) h (inr mf) (inr mg) e =
    same_of_described f g xs (ground arith) mf mg e

cast-eq : (t : DataType) (n v : ℕ) → n ≤ type_width t → v < 2 ^ n → cast t v ≡ v
unfolding cast
cast-eq bool n v le lt = ground (arith, pow-le-pow_right {n = 2} (omega arith) le)
cast-eq uint8 n v le lt = omega (arith, pow-le-pow_right {n = 2} (omega arith) le)
cast-eq uint16 n v le lt = omega (arith, pow-le-pow_right {n = 2} (omega arith) le)
cast-eq uint32 n v le lt = omega (arith, pow-le-pow_right {n = 2} (omega arith) le)
cast-eq uint64 n v le lt = omega (arith, pow-le-pow_right {n = 2} (omega arith) le)

-- A value below 2 to the width of a well-formed field is one of the field's type.
pub cast_of_fits :
    (f : Field) (v : ℕ) → well_formed f ≡ true → v < 2 ^ f.bit_width → cast f.data_type v ≡ v
cast_of_fits f v h lt =
    cast-eq f.data_type f.bit_width v (leb→le f.bit_width (type_width f.data_type) (ground arith))
      lt
