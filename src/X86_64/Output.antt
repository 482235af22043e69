-- ===== src/X86_64/Output.antt =====
-- The operators of operator.cpp for x86_64, each as the calls of `printf` that it makes. The names
-- of the namespace `cpu::regs` are read as the register classes of include/x86_64/regs.hpp.
pub mod Laws
pub mod Calls
use cpu_io.Base.{ℕ, ◌^◌, ◌%◌, ◌/◌, u8, u32, List, [], ◌∷◌}
use cpu_io.Output.{Argument, number, string, Printed, printed, choice, enabled}
use cpu_io.RegisterInfo.{Field, get_value}
use cpu_io.X86_64.Machine.{
  Reg, rbp, rflags, gdtr, ldtr, idtr, tr, cr0, cr2, cr3, cr4, cr8, xcr0, cs, ss, ds, es, fs, gs, M,
  pure, ◌>>=◌,
}
use cpu_io.X86_64.Info.{
  rflags_if, cr0_pe, cr0_pg, cr3_pwt, cr3_pcd, cr3_page_directory_base, cr4_pae, selector_rpl,
  selector_ti, selector_index,
}
use cpu_io.X86_64.Descriptor.{
  segment_type_field, segment_s, segment_dpl, segment_p, segment_avl, segment_l, error_code_ext,
  error_code_idt, error_code_ti, error_code_segment_selector_index,
}
use cpu_io.X86_64.ReadWrite
use cpu_io.X86_64.Field

unfoldable pub show_cr8 : M Printed
show_cr8 = do value ← ReadWrite.read cr8; pure (printed "val: 0x%p" (number value ∷ []))

unfoldable pub show_xcr0 : M Printed
show_xcr0 = do value ← ReadWrite.read xcr0; pure (printed "val: 0x%p" (number value ∷ []))

unfoldable pub show_cs : M Printed
show_cs = do
  val ← ReadWrite.read cs
  rpl ← Field.get cs selector_rpl
  ti ← Field.get cs selector_ti
  index ← Field.get cs selector_index
  pure (
      printed "val: 0x%X, rpl: %d, ti: %s, index: 0x%X"
        (number val ∷ number rpl ∷ choice ti "LDT" "GDT" ∷ number index ∷ []))

unfoldable pub show_ss : M Printed
show_ss = do
  val ← ReadWrite.read ss
  rpl ← Field.get ss selector_rpl
  ti ← Field.get ss selector_ti
  index ← Field.get ss selector_index
  pure (
      printed "val: 0x%X, rpl: %d, ti: %s, index: 0x%X"
        (number val ∷ number rpl ∷ choice ti "LDT" "GDT" ∷ number index ∷ []))

unfoldable pub show_ds : M Printed
show_ds = do
  val ← ReadWrite.read ds
  rpl ← Field.get ds selector_rpl
  ti ← Field.get ds selector_ti
  index ← Field.get ds selector_index
  pure (
      printed "val: 0x%X, rpl: %d, ti: %s, index: 0x%X"
        (number val ∷ number rpl ∷ choice ti "LDT" "GDT" ∷ number index ∷ []))

unfoldable pub show_es : M Printed
show_es = do
  val ← ReadWrite.read es
  rpl ← Field.get es selector_rpl
  ti ← Field.get es selector_ti
  index ← Field.get es selector_index
  pure (
      printed "val: 0x%X, rpl: %d, ti: %s, index: 0x%X"
        (number val ∷ number rpl ∷ choice ti "LDT" "GDT" ∷ number index ∷ []))

unfoldable pub show_fs : M Printed
show_fs = do
  val ← ReadWrite.read fs
  rpl ← Field.get fs selector_rpl
  ti ← Field.get fs selector_ti
  index ← Field.get fs selector_index
  pure (
      printed "val: 0x%X, rpl: %d, ti: %s, index: 0x%X"
        (number val ∷ number rpl ∷ choice ti "LDT" "GDT" ∷ number index ∷ []))

unfoldable pub show_gs : M Printed
show_gs = do
  val ← ReadWrite.read gs
  rpl ← Field.get gs selector_rpl
  ti ← Field.get gs selector_ti
  index ← Field.get gs selector_index
  pure (
      printed "val: 0x%X, rpl: %d, ti: %s, index: 0x%X"
        (number val ∷ number rpl ∷ choice ti "LDT" "GDT" ∷ number index ∷ []))

unfoldable pub show_cr3 : M Printed
show_cr3 = do
  pwt ← Field.get cr3 cr3_pwt
  pcd ← Field.get cr3 cr3_pcd
  page_directory_base ← Field.get cr3 cr3_page_directory_base
  value ← ReadWrite.read cr3
  pure (
      printed "val: 0x%p, pwt: %s, pcd: %s, page_directory_base: 0x%p"
        (number value ∷ enabled pwt ∷ enabled pcd ∷ number page_directory_base ∷ []))

unfoldable pub show_cr4 : M Printed
show_cr4 = do
  pae ← Field.get cr4 cr4_pae
  value ← ReadWrite.read cr4
  pure (printed "val: 0x%p, pae: %s" (number value ∷ enabled pae ∷ []))

unfoldable pub show_segment_descriptor : ℕ → Printed
show_segment_descriptor val =
    printed "val: 0x%p, type: 0x%X, s: %s, dpl: 0x%X, p: %s, avl: %s, l: %s" (
      number val
      ∷ number (u8 (get_value segment_type_field val))
      ∷ choice (get_value segment_s val) "CodeData" "System"
      ∷ number (u8 (get_value segment_dpl val))
      ∷ choice (get_value segment_p val) "Present" "NotPresent"
      ∷ choice (get_value segment_avl val) "Available" "NotAvailable"
      ∷ choice (get_value segment_l val) "64Bit" "Legacy"
      ∷ [])

unfoldable pub show_error_code : ℕ → Printed
show_error_code val = printed "val: 0x%X, ext: %d, idt: %d, ti: %d, segment_selector_index: 0x%X" (
    number val
    ∷ number (u8 (get_value error_code_ext val))
    ∷ number (u8 (get_value error_code_idt val))
    ∷ number (u8 (get_value error_code_ti val))
    ∷ number (u32 (get_value error_code_segment_selector_index val))
    ∷ [])

unfoldable pub show_rbp : M Printed
show_rbp = do value ← ReadWrite.read rbp; pure (printed "val: 0x%p" (number value ∷ []))

unfoldable pub show_rflags : M Printed
show_rflags = do
  interrupt_enable_flag ← Field.get rflags rflags_if
  value ← ReadWrite.read rflags
  pure (printed "val: 0x%p, if: %s" (number value ∷ enabled interrupt_enable_flag ∷ []))

-- The base and the limit are members of the image that is read, each by a read of its own.
unfoldable pub show_gdtr : M Printed
show_gdtr = do
  base ← Field.get_base gdtr
  limit ← Field.get_limit gdtr
  pure (printed "base: 0x%p, limit: %d" (number base ∷ number limit ∷ []))

unfoldable pub show_ldtr : M Printed
show_ldtr = do value ← ReadWrite.read ldtr; pure (printed "val: 0x%p" (number value ∷ []))

unfoldable pub show_idtr : M Printed
show_idtr = do
  base ← Field.get_base idtr
  limit ← Field.get_limit idtr
  pure (printed "base: 0x%p, limit: %d" (number base ∷ number limit ∷ []))

unfoldable pub show_tr : M Printed
show_tr = do value ← ReadWrite.read tr; pure (printed "val: 0x%p" (number value ∷ []))

unfoldable pub show_cr0 : M Printed
show_cr0 = do
  pe ← Field.get cr0 cr0_pe
  pg ← Field.get cr0 cr0_pg
  value ← ReadWrite.read cr0
  pure (printed "val: 0x%p, pe: %s, pg: %s" (number value ∷ enabled pe ∷ enabled pg ∷ []))

unfoldable pub show_cr2 : M Printed
show_cr2 = do value ← ReadWrite.read cr2; pure (printed "val: 0x%p" (number value ∷ []))

-- The members of InterruptContext and of InterruptContextErrorCode.
pub record InterruptContext : Type 0 where
  pub rip : ℕ
  pub cs_word : ℕ
  pub rflags_word : ℕ
  pub rsp : ℕ
  pub ss_word : ℕ

pub record InterruptContextErrorCode : Type 0 where
  pub error_code : ℕ
  pub padding : ℕ
  pub rip : ℕ
  pub cs_word : ℕ
  pub rflags_word : ℕ
  pub rsp : ℕ
  pub ss_word : ℕ

unfoldable pub show_interrupt_context : InterruptContext → List Printed
show_interrupt_context c =
    printed "rip: 0x%lX\n" (number c.rip ∷ [])
    ∷ printed "cs: 0x%lX\n" (number c.cs_word ∷ [])
    ∷ printed "rflags: 0x%lX\n" (number c.rflags_word ∷ [])
    ∷ printed "rsp: 0x%lX\n" (number c.rsp ∷ [])
    ∷ printed "ss: 0x%lX" (number c.ss_word ∷ [])
    ∷ []

-- `std::endl` is a line of its own.
unfoldable pub show_interrupt_context_error_code : InterruptContextErrorCode → List Printed
unfolding show_error_code
show_interrupt_context_error_code c =
    printed "\n" []
    ∷ show_error_code c.error_code
    ∷ printed "\n" []
    ∷ printed "padding: 0x%X\n" (number c.padding ∷ [])
    ∷ printed "rip: 0x%lX\n" (number c.rip ∷ [])
    ∷ printed "cs: 0x%lX\n" (number c.cs_word ∷ [])
    ∷ printed "rflags: 0x%lX\n" (number c.rflags_word ∷ [])
    ∷ printed "rsp: 0x%lX\n" (number c.rsp ∷ [])
    ∷ printed "ss: 0x%lX" (number c.ss_word ∷ [])
    ∷ []
