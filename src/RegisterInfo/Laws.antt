-- ===== src/RegisterInfo/Laws.antt =====
-- What a bit field's mask, extraction and insertion do, bit by bit.
use native.Mathlib.Nat.{pow-le-pow_right, mul-div_cancel, mod-lt}
use cpu_io.Base.{
  ℕ, ◌+◌, ◌-◌, ◌*◌, ◌/◌, ◌%◌, ◌^◌, ◌≤◌, ◌≢◌, ◌<◌, bit_and, bit_or, ◌≡◌, sym, ap, ◌∙◌, arith,
  if◌then◌else◌, shl64, not64, bit_at, bit_at-bit_and, bit_at-bit_or, bit_at-le-one, bit_at_zero,
  bit_at-ones, bit_at_not, bit_at-div-pow, bit_at-mod-pow, bit_and-ones, same_bits, two-pow-pos,
  pow-add, bit_at-eq-zero, bit_at-shl64, bit_at-not64, ◌⊎◌, lt-two-pow_of_bits, bit_at_high,
  bit_at_moved, bit_or-add,
}
use cpu_io.RegisterInfo.{cast, Field, get_value, insert, in_field}

-- The field is a run of ones that lies in the word.
pub record IsRun (f : Field) : Type 0 where
  pub fits : f.bit_offset + f.bit_width ≤ 64
  pub ones : f.bit_mask ≡ (2 ^ f.bit_width - 1) * 2 ^ f.bit_offset

pub ones-lt : (w o : ℕ) → o + w ≤ 64 → (2 ^ w - 1) * 2 ^ o < 2 ^ 64
ones-lt w o h =
    let le : 2 ^ (o + w) ≤ 2 ^ 64 = pow-le-pow_right (omega arith) h in
    grind (arith, pow-add o w, two-pow-pos o, two-pow-pos w, le)

module _ (f : Field) (run : IsRun f) where
  pub mask-lt : f.bit_mask < 2 ^ 64
  mask-lt = rw run.ones (ones-lt f.bit_width f.bit_offset run.fits)

  pub mask-pos : 0 < f.bit_width → f.bit_mask ≢ 0
  mask-pos pos zero_mask =
      let e : bit_at f.bit_offset f.bit_mask ≡ 0 =
        ap (bit_at f.bit_offset) zero_mask ∙ bit_at_zero f.bit_offset in
      ground (arith, e, run.ones, bit_at-ones f.bit_width f.bit_offset f.bit_offset, pos)

  pub bit_at-mask : (i : ℕ) → bit_at i f.bit_mask ≡ (if in_field f i then 1 else 0)
  bit_at-mask i = rw run.ones (bit_at-ones f.bit_width f.bit_offset i ∙ ground arith)

  -- Extraction as arithmetic.
  pub get_value-eq :
      (x : ℕ) → get_value f x ≡ cast f.data_type (x / 2 ^ f.bit_offset % 2 ^ f.bit_width)
  unfolding get_value
  get_value-eq x =
      rw (run.ones, bit_and-ones f.bit_width f.bit_offset x)
        (ap (cast f.data_type) (mul-div_cancel _ (two-pow-pos f.bit_offset)))

  pub bit_at_kept :
      (org i : ℕ)
      → org < 2 ^ 64
      → bit_at i (bit_and org (not64 f.bit_mask)) ≡ (if in_field f i then 0 else bit_at i org)
  bit_at_kept org i h = ground (
    arith,
    bit_at-bit_and i org (not64 f.bit_mask),
    bit_at-not64 i f.bit_mask mask-lt,
    bit_at-mask i,
    bit_at-eq-zero 64 i org,
    bit_at-le-one i org,
  )

  bit_at_written :
      (v i : ℕ)
      → bit_at i (bit_and (shl64 v f.bit_offset) f.bit_mask)
        ≡ (if in_field f i then bit_at (i - f.bit_offset) v else 0)
  bit_at_written v i = ground (
    arith,
    bit_at-bit_and i (shl64 v f.bit_offset) f.bit_mask,
    bit_at-mask i,
    bit_at-shl64 f.bit_offset i v,
    bit_at-le-one (i - f.bit_offset) v,
    run.fits,
  )

  -- Insertion writes the low bits of the value into the field and keeps every other bit.
  pub bit_at-insert :
      (org v i : ℕ)
      → org < 2 ^ 64
      → bit_at i (insert f org v)
        ≡ (if in_field f i then bit_at (i - f.bit_offset) v else bit_at i org)
  unfolding insert
  bit_at-insert org v i h = ground (
    arith,
    bit_at-bit_or i (bit_and org (not64 f.bit_mask)) (bit_and (shl64 v f.bit_offset) f.bit_mask),
    bit_at_kept org i h,
    bit_at_written v i,
  )

  -- What was inserted is extracted again, cut to the field's width.
  pub get_value-insert :
      (org v : ℕ)
      → org < 2 ^ 64
      → get_value f (insert f org v) ≡ cast f.data_type (v % 2 ^ f.bit_width)
  get_value-insert org v h = get_value-eq (insert f org v) ∙ ap (cast f.data_type) same
    where
      same : insert f org v / 2 ^ f.bit_offset % 2 ^ f.bit_width ≡ v % 2 ^ f.bit_width
      same = same_bits _ _ λ i. ground (
        arith,
        bit_at-mod-pow f.bit_width i (insert f org v / 2 ^ f.bit_offset),
        bit_at-mod-pow f.bit_width i v,
        bit_at-div-pow f.bit_offset i (insert f org v),
        bit_at-insert org v (f.bit_offset + i) h,
      )

module _ (f : Field) (run : IsRun f) where
  splice-bits :
      (org v : ℕ)
      → org < 2 ^ 64
      → insert f org v
        ≡ bit_or
            (org / 2 ^ (f.bit_offset + f.bit_width) * 2 ^ (f.bit_offset + f.bit_width))
            (bit_or (v % 2 ^ f.bit_width * 2 ^ f.bit_offset) (org % 2 ^ f.bit_offset))
  splice-bits org v h = same_bits _ _ λ i. ground (
    arith,
    bit_at-insert f run org v i h,
    bit_at-bit_or i (org / 2 ^ (f.bit_offset + f.bit_width) * 2 ^ (f.bit_offset + f.bit_width))
        (bit_or (v % 2 ^ f.bit_width * 2 ^ f.bit_offset) (org % 2 ^ f.bit_offset)),
    bit_at-bit_or i (v % 2 ^ f.bit_width * 2 ^ f.bit_offset) (org % 2 ^ f.bit_offset),
    bit_at_high (f.bit_offset + f.bit_width) i org,
    bit_at_moved f.bit_width f.bit_offset i v,
    bit_at-mod-pow f.bit_offset i org,
  )

  middle-lt :
      (org v : ℕ)
      → v % 2 ^ f.bit_width * 2 ^ f.bit_offset + org % 2 ^ f.bit_offset
        < 2 ^ (f.bit_offset + f.bit_width)
  middle-lt org v =
      rw (pow-add f.bit_offset f.bit_width)
        (grind (arith, two-pow-pos f.bit_offset, two-pow-pos f.bit_width))

  -- Insertion as arithmetic: the part above the field, the value, the part below.
  pub insert-eq :
      (org v : ℕ)
      → org < 2 ^ 64
      → insert f org v
        ≡ org / 2 ^ (f.bit_offset + f.bit_width) * 2 ^ (f.bit_offset + f.bit_width)
          + (v % 2 ^ f.bit_width * 2 ^ f.bit_offset + org % 2 ^ f.bit_offset)
  insert-eq org v h =
      splice-bits org v h
      ∙ ap (bit_or (org / 2 ^ (f.bit_offset + f.bit_width) * 2 ^ (f.bit_offset + f.bit_width))) (
          bit_or-add f.bit_offset (v % 2 ^ f.bit_width) (org % 2 ^ f.bit_offset)
            (mod-lt org (two-pow-pos f.bit_offset)))
      ∙ bit_or-add (f.bit_offset + f.bit_width) (org / 2 ^ (f.bit_offset + f.bit_width)) _
          (middle-lt org v)

  -- Setting the mask's bits inserts all ones, clearing them inserts 0.
  pub bit_or-mask :
      (org : ℕ) → org < 2 ^ 64 → bit_or org f.bit_mask ≡ insert f org (2 ^ f.bit_width - 1)
  bit_or-mask org h = same_bits _ _ λ i. ground (
    arith,
    bit_at-bit_or i org f.bit_mask,
    bit_at-mask f run i,
    bit_at-insert f run org (2 ^ f.bit_width - 1) i h,
    bit_at_not f.bit_width (i - f.bit_offset) 0 (two-pow-pos f.bit_width),
    bit_at_zero (i - f.bit_offset),
    bit_at-le-one i org,
  )

  pub bit_and-not-mask : (org : ℕ) → org < 2 ^ 64 → bit_and org (not64 f.bit_mask) ≡ insert f org 0
  bit_and-not-mask org h = same_bits _ _ λ i. ground (
    arith,
    bit_at_kept f run org i h,
    bit_at-insert f run org 0 i h,
    bit_at_zero (i - f.bit_offset),
  )

-- A field that shares no bit with the inserted one reads as before.
pub get_value-insert_other :
    (f g : Field)
    → IsRun f
    → IsRun g
    → (f.bit_offset + f.bit_width ≤ g.bit_offset) ⊎ (g.bit_offset + g.bit_width ≤ f.bit_offset)
    → (org v : ℕ) → org < 2 ^ 64
    → get_value g (insert f org v) ≡ get_value g org
get_value-insert_other f g rf rg apart org v h =
    get_value-eq g rg (insert f org v) ∙ ap (cast g.data_type) same ∙ sym (get_value-eq g rg org)
  where
    same :
        insert f org v / 2 ^ g.bit_offset % 2 ^ g.bit_width
        ≡ org / 2 ^ g.bit_offset % 2 ^ g.bit_width
    same = same_bits _ _ λ i. ground (
      arith,
      bit_at-mod-pow g.bit_width i (insert f org v / 2 ^ g.bit_offset),
      bit_at-mod-pow g.bit_width i (org / 2 ^ g.bit_offset),
      bit_at-div-pow g.bit_offset i (insert f org v),
      bit_at-div-pow g.bit_offset i org,
      bit_at-insert f rf org v (g.bit_offset + i) h,
      apart,
    )

pub insert-lt : (f : Field) → IsRun f → (org v : ℕ) → org < 2 ^ 64 → insert f org v < 2 ^ 64
insert-lt f run org v h =
    lt-two-pow_of_bits 64 (insert f org v)
      λ i le. ground (arith, bit_at-insert f run org v i h, bit_at-eq-zero 64 i org h le, run.fits)
