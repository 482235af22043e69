-- ===== src/Aarch64/Translation.antt =====
-- The functions of include/aarch64/virtual_memory.hpp that act on the translation registers and on
-- the TLB.
pub mod Attributes
pub mod Laws
pub mod Meaning
pub mod Refinement
use cpu_io.Base.{ℕ, shr}
use cpu_io.Aarch64.Machine.{
  mair_el1, tcr_el1, sctlr_el1, ttbr0_el1, ttbr1_el1, Stores, M, pure, ◌>>=◌, ◌>>◌, event, isb,
  dsb_sy, tlbi_vmalle1, tlbi_vmalle1is, tlbi_vae1is,
}
use cpu_io.Aarch64.Info.{
  mair_el1_aff0, mair_el1_aff1, mair_el1_aff2, mair_el1_aff3, tcr_el1_t0sz, tcr_el1_t1sz,
  tcr_el1_tg0, tcr_el1_tg1, tcr_el1_ips, k_device_ngnrne, k_normal_non_cacheable,
  k_normal_write_through_read_alloc, k_normal_write_back_read_write_alloc, k_tg_4kb, k_tg1_4kb,
  k_ips_48_bits,
}
use cpu_io.Aarch64.Info.System.{sctlr_el1_m, sctlr_el1_c, sctlr_el1_i}
use cpu_io.Aarch64.ReadWrite
use cpu_io.Aarch64.Field

unfoldable pub get_page_directory : M ℕ
get_page_directory = ReadWrite.read ttbr1_el1

unfoldable pub flush_tlb_address : ℕ → ℕ → M (Unit {0})
flush_tlb_address virtual_addr asid = do
  event dsb_sy
  event (tlbi_vae1is (shr virtual_addr 12))
  event dsb_sy
  event isb

unfoldable pub flush_tlb_all : M (Unit {0})
flush_tlb_all = do event dsb_sy; event tlbi_vmalle1is; event dsb_sy; event isb

module _ ⦃w : Stores⦄ where
  unfoldable pub configure_mair : M (Unit {0})
  configure_mair = do
    Field.write mair_el1 mair_el1_aff0 k_device_ngnrne
    Field.write mair_el1 mair_el1_aff1 k_normal_non_cacheable
    Field.write mair_el1 mair_el1_aff2 k_normal_write_through_read_alloc
    Field.write mair_el1 mair_el1_aff3 k_normal_write_back_read_write_alloc
    event isb

  unfoldable pub configure_tcr : ℕ → ℕ → M (Unit {0})
  configure_tcr t0sz t1sz = do
    Field.write tcr_el1 tcr_el1_t0sz t0sz
    Field.write tcr_el1 tcr_el1_t1sz t1sz
    Field.write tcr_el1 tcr_el1_tg0 k_tg_4kb
    Field.write tcr_el1 tcr_el1_tg1 k_tg1_4kb
    Field.write tcr_el1 tcr_el1_ips k_ips_48_bits
    event isb

  unfoldable pub enable_page : M (Unit {0})
  enable_page = do configure_mair; configure_tcr 16 16; Field.set sctlr_el1 sctlr_el1_m; event isb

  unfoldable pub disable_page : M (Unit {0})
  disable_page = do
    Field.clear sctlr_el1 sctlr_el1_m
    Field.clear sctlr_el1 sctlr_el1_c
    Field.clear sctlr_el1 sctlr_el1_i
    event isb
    event dsb_sy
    event tlbi_vmalle1
    event dsb_sy
    event isb

  unfoldable pub set_page_directory : ℕ → M (Unit {0})
  set_page_directory pgd = do
    ReadWrite.write ttbr1_el1 pgd
    ReadWrite.write ttbr0_el1 pgd
    event isb
