-- ===== src/X86_64/Descriptor/Gates.antt =====
-- What the constructor of the interrupt gates of include/x86_64/regs/register_info.hpp leaves in
-- their words.
use cpu_io.Base.{
  ℕ, ◌+◌, ◌*◌, ◌/◌, ◌%◌, ◌^◌, ◌<◌, ◌≡◌, inl, inr, List, [], ◌∷◌, ap, ◌∙◌, arith, refl, bit_and-ones,
  bit_or-add, shl64, bit_or, bit_and,
}
use cpu_io.RegisterInfo.{Field, cast, get_value}
use cpu_io.RegisterInfo.Table.{Among}
use cpu_io.RegisterInfo.Sequence.{inserts, latest, get_value-inserts}
use cpu_io.X86_64.Descriptor.{
  gate_low_fields, gate_high_fields, gate_offset1, gate_selector, gate_ist, gate_zero0, gate_type,
  gate_zero1, gate_dpl, gate_p, gate_offset2, gate_offset3, gate_reserved, make_gate, Gate,
}

abbrev low_writes : ℕ → ℕ → ℕ → ℕ → ℕ → ℕ → List (Field × ℕ)
low_writes base selector ist type dpl p =
    (gate_offset1, base % 2 ^ 16)
    ∷ (gate_selector, selector)
    ∷ (gate_ist, ist)
    ∷ (gate_type, type)
    ∷ (gate_dpl, dpl)
    ∷ (gate_p, p)
    ∷ (gate_offset2, base / 2 ^ 16 % 2 ^ 16)
    ∷ []

module _ (base selector ist type dpl p : ℕ) (base_fits : base < 2 ^ 64)
    (selector_fits : selector < 2 ^ 16) (ist_fits : ist < 2 ^ 3) (type_fits : type < 2 ^ 4)
    (dpl_fits : dpl < 2 ^ 2) (p_fits : p < 2 ^ 1) where
  low_half : (v : ℕ) → bit_and v 0xFFFF ≡ v % 2 ^ 16
  low_half v = omega (arith, bit_and-ones 16 0 v)

  low-inserts :
      (make_gate base selector ist type dpl p).low
      ≡ inserts (low_writes base selector ist type dpl p) 0
  unfolding make_gate
  low-inserts = rw (low_half base, low_half (base / 2 ^ 16)) refl

  gate_read :
      (f : Field)
      → Among f gate_low_fields
      → get_value f (make_gate base selector ist type dpl p).low
        ≡ latest f (low_writes base selector ist type dpl p) (get_value f 0)
  gate_read f m =
      ap (get_value f) low-inserts
      ∙ get_value-inserts gate_low_fields refl f (low_writes base selector ist type dpl p) 0 m
          (
            inl refl,
            omega arith,
            (
              inr (inl refl),
              selector_fits,
              (
                inr (inr (inl refl)),
                ist_fits,
                (
                  inr (inr (inr (inr (inl refl)))),
                  type_fits,
                  (
                    inr (inr (inr (inr (inr (inr (inl refl)))))),
                    dpl_fits,
                    (
                      inr (inr (inr (inr (inr (inr (inr (inl refl))))))),
                      p_fits,
                      (inr (inr (inr (inr (inr (inr (inr (inr (inl refl)))))))), omega arith, tt),
                    ),
                  ),
                ),
              ),
            ),
          )
          (omega arith)

  high-lt : base / 2 ^ 32 < 2 ^ 32
  high-lt = omega (arith, base_fits)

  high_read :
      (f : Field)
      → Among f gate_high_fields
      → get_value f (make_gate base selector ist type dpl p).high
        ≡ latest f ((gate_offset3, base / 2 ^ 32) ∷ []) (get_value f 0)
  unfolding make_gate
  high_read f m =
      get_value-inserts gate_high_fields refl f ((gate_offset3, base / 2 ^ 32) ∷ []) 0 m
        (inl refl, high-lt, tt) (omega arith)

-- The address of the handler that a gate's three parts give, put together as operator.cpp does.
abbrev pub handler : Gate → ℕ
handler gate =
    bit_or
      (bit_or (shl64 (get_value gate_offset3 gate.high) 32)
        (shl64 (get_value gate_offset2 gate.low) 16))
      (get_value gate_offset1 gate.low)

handler_parts :
    (base : ℕ)
    → base < 2 ^ 64
    → bit_or (bit_or (shl64 (base / 2 ^ 32) 32) (shl64 (base / 2 ^ 16 % 2 ^ 16) 16)) (base % 2 ^ 16)
      ≡ base
handler_parts base lt =
    let third : shl64 (base / 2 ^ 32) 32 ≡ base / 2 ^ 32 * 2 ^ 32 = omega arith in
    let second : shl64 (base / 2 ^ 16 % 2 ^ 16) 16 ≡ base / 2 ^ 16 % 2 ^ 16 * 2 ^ 16 =
      omega arith in
    let upper : base / 2 ^ 32 * 2 ^ 32 + base / 2 ^ 16 % 2 ^ 16 * 2 ^ 16 ≡ base / 2 ^ 16 * 2 ^ 16 =
      omega arith in
    rw
      (
        third,
        second,
        bit_or-add 32 (base / 2 ^ 32) (base / 2 ^ 16 % 2 ^ 16 * 2 ^ 16) (omega arith),
        upper,
        bit_or-add 16 (base / 2 ^ 16) (base % 2 ^ 16) (omega arith),
      )
      (omega arith)

-- For a 64-bit address and arguments that fit in their bit-fields, the constructed gate gives back
-- the address from its three parts and each argument from its bit-field, and the reserved ones are
-- 0.
pub make_gate_lem :
    (base selector ist type dpl p : ℕ)
    → base < 2 ^ 64
    → selector < 2 ^ 16
    → ist < 2 ^ 3
    → type < 2 ^ 4
    → dpl < 2 ^ 2
    → p < 2 ^ 1
    → (handler (make_gate base selector ist type dpl p) ≡ base)
      × (get_value gate_selector (make_gate base selector ist type dpl p).low ≡ selector)
      × (get_value gate_ist (make_gate base selector ist type dpl p).low ≡ ist)
      × (get_value gate_zero0 (make_gate base selector ist type dpl p).low ≡ 0)
      × (get_value gate_type (make_gate base selector ist type dpl p).low ≡ type)
      × (get_value gate_zero1 (make_gate base selector ist type dpl p).low ≡ 0)
      × (get_value gate_dpl (make_gate base selector ist type dpl p).low ≡ dpl)
      × (get_value gate_p (make_gate base selector ist type dpl p).low ≡ p)
      × (get_value gate_reserved (make_gate base selector ist type dpl p).high ≡ 0)
unfolding get_value cast
make_gate_lem base selector ist type dpl p l0 l1 l2 l3 l4 l5 = (
  rw
      (
        high_read base selector ist type dpl p l0 l1 l2 l3 l4 l5 gate_offset3 (inl refl),
        gate_read base selector ist type dpl p l0 l1 l2 l3 l4 l5 gate_offset2
            (inr (inr (inr (inr (inr (inr (inr (inr (inl refl))))))))),
        gate_read base selector ist type dpl p l0 l1 l2 l3 l4 l5 gate_offset1 (inl refl),
      )
      (handler_parts base l0),
  gate_read base selector ist type dpl p l0 l1 l2 l3 l4 l5 gate_selector (inr (inl refl)),
  gate_read base selector ist type dpl p l0 l1 l2 l3 l4 l5 gate_ist (inr (inr (inl refl))),
  gate_read base selector ist type dpl p l0 l1 l2 l3 l4 l5 gate_zero0 (inr (inr (inr (inl refl)))),
  gate_read base selector ist type dpl p l0 l1 l2 l3 l4 l5 gate_type
      (inr (inr (inr (inr (inl refl))))),
  gate_read base selector ist type dpl p l0 l1 l2 l3 l4 l5 gate_zero1
      (inr (inr (inr (inr (inr (inl refl)))))),
  gate_read base selector ist type dpl p l0 l1 l2 l3 l4 l5 gate_dpl
      (inr (inr (inr (inr (inr (inr (inl refl))))))),
  gate_read base selector ist type dpl p l0 l1 l2 l3 l4 l5 gate_p
      (inr (inr (inr (inr (inr (inr (inr (inl refl)))))))),
  high_read base selector ist type dpl p l0 l1 l2 l3 l4 l5 gate_reserved (inr (inl refl)),
)
