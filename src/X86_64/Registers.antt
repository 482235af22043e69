-- ===== src/X86_64/Registers.antt =====
-- The register classes of include/x86_64/regs.hpp: how each register may be accessed, and its fields.
pub mod Laws
use cpu_io.Base.{List, [], ◌∷◌}
use cpu_io.RegisterInfo.Access.{read_only, read_write, Declared}
use cpu_io.X86_64.Machine.{
  Reg, rbp, rflags, gdtr, ldtr, idtr, tr, cr0, cr2, cr3, cr4, cr8, xcr0, cs, ss, ds, es, fs, gs,
}
use cpu_io.X86_64.Info.{
  rflags_if, gdtr_limit, gdtr_base, idtr_limit, idtr_base, cr0_pe, cr0_pg, cr3_pwt, cr3_pcd,
  cr3_page_directory_base, cr4_pae, selector_rpl, selector_ti, selector_index,
}

abbrev pub rbp_class : Declared
rbp_class = record { base = read_write; members = [] }

abbrev pub rflags_class : Declared
rflags_class = record { base = read_write; members = (read_write, rflags_if) ∷ [] }

abbrev pub gdtr_class : Declared
gdtr_class = record {
  base = read_write;
  members = (read_write, gdtr_limit) ∷ (read_write, gdtr_base) ∷ [];
}

abbrev pub ldtr_class : Declared
ldtr_class = record { base = read_write; members = [] }

abbrev pub idtr_class : Declared
idtr_class = record {
  base = read_write;
  members = (read_write, idtr_limit) ∷ (read_write, idtr_base) ∷ [];
}

abbrev pub tr_class : Declared
tr_class = record { base = read_write; members = [] }

abbrev pub cr0_class : Declared
cr0_class = record { base = read_write; members = (read_write, cr0_pe) ∷ (read_write, cr0_pg) ∷ [] }

abbrev pub cr2_class : Declared
cr2_class = record { base = read_write; members = [] }

abbrev pub cr3_class : Declared
cr3_class = record {
  base = read_write;
  members =
      (read_write, cr3_pwt) ∷ (read_write, cr3_pcd) ∷ (read_write, cr3_page_directory_base) ∷ [];
}

abbrev pub cr4_class : Declared
cr4_class = record { base = read_write; members = (read_write, cr4_pae) ∷ [] }

abbrev pub cr8_class : Declared
cr8_class = record { base = read_write; members = [] }

abbrev pub xcr0_class : Declared
xcr0_class = record { base = read_write; members = [] }

abbrev pub cs_class : Declared
cs_class = record {
  base = read_write;
  members = (read_only, selector_rpl) ∷ (read_only, selector_ti) ∷ (read_only, selector_index) ∷ [];
}

abbrev pub ss_class : Declared
ss_class = record {
  base = read_write;
  members =
      (read_write, selector_rpl) ∷ (read_write, selector_ti) ∷ (read_write, selector_index) ∷ [];
}

abbrev pub ds_class : Declared
ds_class = record {
  base = read_write;
  members =
      (read_write, selector_rpl) ∷ (read_write, selector_ti) ∷ (read_write, selector_index) ∷ [];
}

abbrev pub es_class : Declared
es_class = record {
  base = read_write;
  members =
      (read_write, selector_rpl) ∷ (read_write, selector_ti) ∷ (read_write, selector_index) ∷ [];
}

abbrev pub fs_class : Declared
fs_class = record {
  base = read_write;
  members =
      (read_write, selector_rpl) ∷ (read_write, selector_ti) ∷ (read_write, selector_index) ∷ [];
}

abbrev pub gs_class : Declared
gs_class = record {
  base = read_write;
  members =
      (read_write, selector_rpl) ∷ (read_write, selector_ti) ∷ (read_write, selector_index) ∷ [];
}

-- The class of a register; `Msr`, which is no one register, is not among them.
abbrev pub declared : Reg → Declared
declared rbp = rbp_class
declared rflags = rflags_class
declared gdtr = gdtr_class
declared ldtr = ldtr_class
declared idtr = idtr_class
declared tr = tr_class
declared cr0 = cr0_class
declared cr2 = cr2_class
declared cr3 = cr3_class
declared cr4 = cr4_class
declared cr8 = cr8_class
declared xcr0 = xcr0_class
declared cs = cs_class
declared ss = ss_class
declared ds = ds_class
declared es = es_class
declared fs = fs_class
declared gs = gs_class
