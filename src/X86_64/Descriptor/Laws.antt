-- ===== src/X86_64/Descriptor/Laws.antt =====
-- The words of the descriptors of include/x86_64/regs/register_info.hpp, and what the constructor of
-- the segment descriptors leaves in one.
use cpu_io.Base.{ℕ, ◌+◌, ◌^◌, ◌<◌, ◌≡◌, inl, inr, true, List, [], ◌∷◌, arith, refl}
use cpu_io.RegisterInfo.{Field, cast, get_value}
use cpu_io.RegisterInfo.Table.{Among, well_described}
use cpu_io.RegisterInfo.Sequence.{Fits, latest, get_value-inserts}
use cpu_io.X86_64.Descriptor.{
  segment_limit_low, segment_base_low, segment_base_mid, segment_type_field, segment_s, segment_dpl,
  segment_p, segment_limit_high, segment_avl, segment_l, segment_db, segment_g, segment_base_high,
  segment_fields, error_code_fields, gate_low_fields, gate_high_fields, SegmentType, SegmentClass,
  Dpl, Presence, Availability, CodeMode, segment_type, segment_class, privilege, presence,
  availability, code_mode, make_segment,
}

-- The number of bits that the fields take.
abbrev pub total_width : List Field → ℕ
total_width [] = 0
total_width (f ∷ fs) = f.bit_width + total_width fs

-- The bit-fields of each word take all its bits, and no two of them share one.
pub words_described :
    (well_described segment_fields ≡ true)
    × (total_width segment_fields ≡ 64)
    × (well_described error_code_fields ≡ true)
    × (total_width error_code_fields ≡ 32)
    × (well_described gate_low_fields ≡ true)
    × (total_width gate_low_fields ≡ 64)
    × (well_described gate_high_fields ≡ true)
    × (total_width gate_high_fields ≡ 64)
words_described = (refl, refl, refl, refl, refl, refl, refl, refl)

segment_type-lt : (t : SegmentType) → segment_type t < 2 ^ 4
segment_type-lt t = ground arith

segment_class-lt : (s : SegmentClass) → segment_class s < 2 ^ 1
segment_class-lt s = ground arith

privilege-lt : (d : Dpl) → privilege d < 2 ^ 2
privilege-lt d = ground arith

presence-lt : (p : Presence) → presence p < 2 ^ 1
presence-lt p = ground arith

availability-lt : (a : Availability) → availability a < 2 ^ 1
availability-lt a = ground arith

code_mode-lt : (l : CodeMode) → code_mode l < 2 ^ 1
code_mode-lt l = ground arith

abbrev segment_writes :
    SegmentType → SegmentClass → Dpl → Presence → Availability → CodeMode → List (Field × ℕ)
segment_writes t s d p a l =
    (segment_type_field, segment_type t)
    ∷ (segment_s, segment_class s)
    ∷ (segment_dpl, privilege d)
    ∷ (segment_p, presence p)
    ∷ (segment_avl, availability a)
    ∷ (segment_l, code_mode l)
    ∷ []

segment_writes-Fits :
    (t : SegmentType) (s : SegmentClass) (d : Dpl) (p : Presence) (a : Availability) (l : CodeMode)
    → Fits segment_fields (segment_writes t s d p a l)
segment_writes-Fits t s d p a l = (
  inr (inr (inr (inl refl))),
  segment_type-lt t,
  (
    inr (inr (inr (inr (inl refl)))),
    segment_class-lt s,
    (
      inr (inr (inr (inr (inr (inl refl))))),
      privilege-lt d,
      (
        inr (inr (inr (inr (inr (inr (inl refl)))))),
        presence-lt p,
        (
          inr (inr (inr (inr (inr (inr (inr (inr (inl refl)))))))),
          availability-lt a,
          (inr (inr (inr (inr (inr (inr (inr (inr (inr (inl refl))))))))), code_mode-lt l, tt),
        ),
      ),
    ),
  ),
)

-- A bit-field of the constructed descriptor is the argument for it, or else 0.
pub segment_read :
    (f : Field) (t : SegmentType) (s : SegmentClass) (d : Dpl) (p : Presence) (a : Availability)
    (l : CodeMode)
    → Among f segment_fields
    → get_value f (make_segment t s d p a l) ≡ latest f (segment_writes t s d p a l) (get_value f 0)
unfolding make_segment
segment_read f t s d p a l m =
    get_value-inserts segment_fields refl f (segment_writes t s d p a l) 0 m
      (segment_writes-Fits t s d p a l) (omega arith)

-- For all 1024 choices of the six arguments, the constructed segment descriptor reads as each
-- argument in its bit-field, and the base, the limit, db and g are 0.
pub make_segment_lem :
    (t : SegmentType) (s : SegmentClass) (d : Dpl) (p : Presence) (a : Availability) (l : CodeMode)
    → (get_value segment_limit_low (make_segment t s d p a l) ≡ 0)
      × (get_value segment_base_low (make_segment t s d p a l) ≡ 0)
      × (get_value segment_base_mid (make_segment t s d p a l) ≡ 0)
      × (get_value segment_type_field (make_segment t s d p a l) ≡ segment_type t)
      × (get_value segment_s (make_segment t s d p a l) ≡ segment_class s)
      × (get_value segment_dpl (make_segment t s d p a l) ≡ privilege d)
      × (get_value segment_p (make_segment t s d p a l) ≡ presence p)
      × (get_value segment_limit_high (make_segment t s d p a l) ≡ 0)
      × (get_value segment_avl (make_segment t s d p a l) ≡ availability a)
      × (get_value segment_l (make_segment t s d p a l) ≡ code_mode l)
      × (get_value segment_db (make_segment t s d p a l) ≡ 0)
      × (get_value segment_g (make_segment t s d p a l) ≡ 0)
      × (get_value segment_base_high (make_segment t s d p a l) ≡ 0)
unfolding get_value cast
make_segment_lem t s d p a l = (
  segment_read segment_limit_low t s d p a l (inl refl),
  segment_read segment_base_low t s d p a l (inr (inl refl)),
  segment_read segment_base_mid t s d p a l (inr (inr (inl refl))),
  segment_read segment_type_field t s d p a l (inr (inr (inr (inl refl)))),
  segment_read segment_s t s d p a l (inr (inr (inr (inr (inl refl))))),
  segment_read segment_dpl t s d p a l (inr (inr (inr (inr (inr (inl refl)))))),
  segment_read segment_p t s d p a l (inr (inr (inr (inr (inr (inr (inl refl))))))),
  segment_read segment_limit_high t s d p a l (inr (inr (inr (inr (inr (inr (inr (inl refl)))))))),
  segment_read segment_avl t s d p a l (inr (inr (inr (inr (inr (inr (inr (inr (inl refl))))))))),
  segment_read segment_l t s d p a l
      (inr (inr (inr (inr (inr (inr (inr (inr (inr (inl refl)))))))))),
  segment_read segment_db t s d p a l
      (inr (inr (inr (inr (inr (inr (inr (inr (inr (inr (inl refl))))))))))),
  segment_read segment_g t s d p a l
      (inr (inr (inr (inr (inr (inr (inr (inr (inr (inr (inr (inl refl)))))))))))),
  segment_read segment_base_high t s d p a l
      (inr (inr (inr (inr (inr (inr (inr (inr (inr (inr (inr (inr (inl refl))))))))))))),
)
