-- ===== src/Aarch64/Translation/Attributes.antt =====
-- The memory attributes that MAIR_EL1 gives to the page table entries of
-- include/aarch64/virtual_memory.hpp.
use cpu_io.Base.{ℕ, ◌*◌, ◌/◌, ◌%◌, ◌^◌, ◌<◌, ◌≡◌, inr, inl, Bool, arith, refl, some, bit_and, shr}
use cpu_io.RegisterInfo.{cast, get_value}
use cpu_io.RegisterInfo.Laws.{get_value-eq}
use cpu_io.Aarch64.Machine.{mair_el1, tcr_el1, sctlr_el1, Stores, Core}
use cpu_io.Aarch64.Info.{mair_el1_aff3}
use cpu_io.Aarch64.Field.Update.{field-IsRun}
use cpu_io.Aarch64.Field.Sequence.{KeepsFields}
use cpu_io.Aarch64.Paging.{create_page_table_entry, k_attr_indx, k_attr_indx_offset}
use cpu_io.Aarch64.Paging.Entry.{created_attr_indx}
use cpu_io.Aarch64.Translation.{enable_page}
use cpu_io.Aarch64.Translation.Laws.{enable_page-eq}
use cpu_io.Aarch64.Translation.Meaning.{mair-Reads}

-- The byte of MAIR_EL1 that the entry's index selects.
abbrev pub attribute : ℕ → ℕ → ℕ
attribute mair entry = mair / 2 ^ (8 * shr (bit_and entry k_attr_indx) k_attr_indx_offset) % 2 ^ 8

mair_byte : (value : ℕ) → get_value mair_el1_aff3 value ≡ 0xFF → value / 2 ^ 24 % 2 ^ 8 ≡ 0xFF
unfolding cast
mair_byte value h = omega (
  arith,
  get_value-eq mair_el1_aff3 (field-IsRun mair_el1 mair_el1_aff3 (inr (inr (inr (inr (inl refl))))))
      value,
)

module _ ⦃w : Stores⦄ where
  -- On a core that stores what differs from its MAIR_EL1, TCR_EL1 or SCTLR_EL1 in one described
  -- field only, `EnablePage` runs to its end, and MAIR_EL1 then has, at the index of a page table
  -- entry that `CreatePageTableEntry` made for a 64-bit address, the attribute 0xFF: normal memory,
  -- write-back.
  pub created_attribute :
      (c : Core) (pa : ℕ) (readable writable executable user_accessible global : Bool)
      → KeepsFields mair_el1
      → KeepsFields tcr_el1
      → KeepsFields sctlr_el1
      → c.reg mair_el1 < 2 ^ 64
      → c.reg tcr_el1 < 2 ^ 64
      → c.reg sctlr_el1 < 2 ^ 64
      → pa < 2 ^ 64
      → (c' : Core) × (enable_page c ≡ some (tt, c'))
        × (attribute
              (c'.reg mair_el1)
              (create_page_table_entry pa readable writable executable user_accessible global)
            ≡ 0xFF)
  created_attribute c pa r w x u g keeps_mair keeps_tcr keeps_sctlr mair tcr sctlr lt =
      let done = enable_page-eq c keeps_mair keeps_tcr keeps_sctlr mair tcr sctlr in
      (
        done.0,
        done.1,
        rw (created_attr_indx pa r w x u g lt, done.2.0)
            (mair_byte _ (mair-Reads (c.reg mair_el1) mair).1.1.1.0),
      )
