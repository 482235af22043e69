-- ===== src/X86_64/Cpuid/Laws.antt =====
-- The strings and the ids of include/x86_64/cpuid.hpp.
use cpu_io.Base.{
  ℕ, suc, ◌+◌, ◌*◌, ◌/◌, ◌%◌, ◌^◌, ◌<◌, ◌≡◌, ◌∙◌, ap, refl, arith, true, false, ltb, leb, ◌!=◌,
  if◌then◌else◌, List, [], ◌∷◌, ◌++◌, bit_and-ones, Bool-cases, inl, inr,
}
use cpu_io.X86_64.Cpuid.{
  CpuidResult, bytes, result_bytes, zeros, has_feature, get_max_basic_leaf, has_feature_edx,
  has_feature_ecx, get_vendor_string, get_brand_string, has_apic, has_x2_apic, has_tsc, has_msr,
  get_apic_id, get_extended_apic_id, get_logical_processor_count, get_current_core_id,
}

-- The first n words of a byte string, each of four bytes with the lowest first, and what is left.
-- It stops early where the string ends.
unfoldable pub words : ℕ → List ℕ → List ℕ × List ℕ
words (suc n) (a ∷ b ∷ c ∷ d ∷ xs) =
    let rest = words n xs in
    let word = a + 2 ^ 8 * (b + 2 ^ 8 * (c + 2 ^ 8 * d)) in (word ∷ rest.0, rest.1)
words _ xs = ([], xs)

words-bytes :
    (n x : ℕ) (xs : List ℕ)
    → x < 2 ^ 32
    → words (suc n) (bytes x ++ xs) ≡ (x ∷ (words n xs).0, (words n xs).1)
unfolding words bytes
words-bytes n x xs lt = ap (λ (t : ℕ). (t ∷ (words n xs).0, (words n xs).1)) (omega arith)

-- The registers of a result in the order of its bytes.
abbrev pub registers : CpuidResult → List ℕ → List ℕ
registers r rest = r.eax ∷ r.ebx ∷ r.ecx ∷ r.edx ∷ rest

-- Every register of a result is a uint32_t.
pub record IsWide (r : CpuidResult) : Type 0 where
  pub eax_lt : r.eax < 2 ^ 32
  pub ebx_lt : r.ebx < 2 ^ 32
  pub ecx_lt : r.ecx < 2 ^ 32
  pub edx_lt : r.edx < 2 ^ 32

words-result :
    (n : ℕ) (r : CpuidResult) (xs : List ℕ)
    → IsWide r
    → words (suc (suc (suc (suc n)))) (result_bytes r ++ xs)
      ≡ (registers r (words n xs).0, (words n xs).1)
unfolding result_bytes
words-result n r xs wide =
    words-bytes (suc (suc (suc n))) r.eax _ wide.eax_lt
    ∙ ap (λ (t : List ℕ × List ℕ). (r.eax ∷ t.0, t.1))
        (words-bytes (suc (suc n)) r.ebx _ wide.ebx_lt
          ∙ ap (λ (t : List ℕ × List ℕ). (r.ebx ∷ t.0, t.1))
              (words-bytes (suc n) r.ecx _ wide.ecx_lt
                ∙ ap (λ (t : List ℕ × List ℕ). (r.ecx ∷ t.0, t.1))
                    (words-bytes n r.edx xs wide.edx_lt)))

module _ (execute_cpuid : ℕ → ℕ → CpuidResult) where
  -- The vendor string is the registers ebx, edx and ecx of leaf 0 in memory, and a zero byte; the
  -- brand string is those of the three brand leaves in order, and a zero byte, if the processor has
  -- these leaves, and 49 zero bytes otherwise.
  pub strings_lem :
      ((leaf : ℕ) → IsWide (execute_cpuid leaf 0))
      → (words 3 (get_vendor_string execute_cpuid) ≡ (
        (execute_cpuid 0 0).ebx ∷ (execute_cpuid 0 0).edx ∷ (execute_cpuid 0 0).ecx ∷ [],
        0 ∷ [],
      ))
        × (words 12 (get_brand_string execute_cpuid) ≡ (
          if leb 0x80000004 (execute_cpuid 0x80000000 0).eax
              then registers (execute_cpuid 0x80000002 0) (
                  registers
                    (execute_cpuid 0x80000003 0)
                    (registers (execute_cpuid 0x80000004 0) []))
              else zeros 12,
          0 ∷ [],
        ))
  unfolding get_vendor_string get_brand_string
  strings_lem wide = (
    words-bytes 2 leaf0.ebx _ (wide 0).ebx_lt
        ∙ ap (λ (t : List ℕ × List ℕ). (leaf0.ebx ∷ t.0, t.1))
            (words-bytes 1 leaf0.edx _ (wide 0).edx_lt
              ∙ ap (λ (t : List ℕ × List ℕ). (leaf0.edx ∷ t.0, t.1))
                  (words-bytes 0 leaf0.ecx (0 ∷ []) (wide 0).ecx_lt
                    ∙ left (λ (xs : List ℕ). leaf0.ecx ∷ xs))),
    elim (Bool-cases (ltb (execute_cpuid 0x80000000 0).eax 0x80000004)) [
      | inl e ↦
          let missing : leb 0x80000004 (execute_cpuid 0x80000000 0).eax ≡ false = ground arith in
          rw (e, missing) no_words
      | inr e ↦
          let there : leb 0x80000004 (execute_cpuid 0x80000000 0).eax ≡ true = ground arith in
          rw (e, there)
            (words-result 8 brand1 _ (wide 0x80000002)
              ∙ ap (λ (t : List ℕ × List ℕ). (registers brand1 t.0, t.1))
                  (words-result 4 brand2 _ (wide 0x80000003)
                    ∙ ap (λ (t : List ℕ × List ℕ). (registers brand2 t.0, t.1))
                        (words-result 0 brand3 (0 ∷ []) (wide 0x80000004)
                          ∙ left (registers brand3))))
    ],
  )
    where
      leaf0 : CpuidResult
      leaf0 = execute_cpuid 0 0

      brand1 : CpuidResult
      brand1 = execute_cpuid 0x80000002 0

      brand2 : CpuidResult
      brand2 = execute_cpuid 0x80000003 0

      brand3 : CpuidResult
      brand3 = execute_cpuid 0x80000004 0

      left :
          (f : List ℕ → List ℕ)
          → ◌≡◌ {A = List ℕ × List ℕ} (f (words 0 (0 ∷ [])).0, (words 0 (0 ∷ [])).1) (f [], 0 ∷ [])
      left f = unfold words in refl

      no_words : ◌≡◌ {A = List ℕ × List ℕ} (words 12 (zeros 49)) (zeros 12, 0 ∷ [])
      no_words = unfold words zeros in refl

  -- The core id is the x2APIC id of leaf 11 if the processor has this leaf, and otherwise the initial
  -- APIC id, the top byte of ebx of leaf 1; the count of logical processors is the byte below it.
  pub core_id_lem :
      (execute_cpuid 1 0).ebx < 2 ^ 32
      → (get_current_core_id execute_cpuid ≡ (
          if leb 11 (execute_cpuid 0 0).eax
          then (execute_cpuid 11 0).edx
          else (execute_cpuid 1 0).ebx / 2 ^ 24))
        × (get_apic_id execute_cpuid * 256 + get_logical_processor_count execute_cpuid
            ≡ (execute_cpuid 1 0).ebx / 2 ^ 16)
  unfolding get_current_core_id get_extended_apic_id get_apic_id get_logical_processor_count
      get_max_basic_leaf
  core_id_lem lt = (
    ground (arith, bit_and-ones 8 0 ((execute_cpuid 1 0).ebx / 2 ^ 24)),
    omega (
      arith,
      bit_and-ones 8 0 ((execute_cpuid 1 0).ebx / 2 ^ 24),
      bit_and-ones 8 0 ((execute_cpuid 1 0).ebx / 2 ^ 16),
    ),
  )

  -- The four feature tests read bits 9, 5 and 4 of edx and bit 21 of ecx of leaf 1.
  pub features_lem :
      (has_apic execute_cpuid ≡ ((execute_cpuid 1 0).edx / 2 ^ 9 % 2 != 0))
      × (has_msr execute_cpuid ≡ ((execute_cpuid 1 0).edx / 2 ^ 5 % 2 != 0))
      × (has_tsc execute_cpuid ≡ ((execute_cpuid 1 0).edx / 2 ^ 4 % 2 != 0))
      × (has_x2_apic execute_cpuid ≡ ((execute_cpuid 1 0).ecx / 2 ^ 21 % 2 != 0))
  unfolding has_apic has_msr has_tsc has_x2_apic has_feature_edx has_feature_ecx has_feature
  features_lem = (
    ground (arith, bit_and-ones 1 9 (execute_cpuid 1 0).edx),
    ground (arith, bit_and-ones 1 5 (execute_cpuid 1 0).edx),
    ground (arith, bit_and-ones 1 4 (execute_cpuid 1 0).edx),
    ground (arith, bit_and-ones 1 21 (execute_cpuid 1 0).ecx),
  )
