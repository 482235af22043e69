-- ===== src/Riscv64/Registers.antt =====
-- The register classes of include/riscv64/regs.hpp: how each register may be accessed, and its
-- fields.
pub mod Laws
use cpu_io.Base.{List, [], ◌∷◌}
use cpu_io.RegisterInfo.Access.{read_only, read_write, Declared}
use cpu_io.Riscv64.Hart.{
  Reg, fp, tp, sstatus, stvec, sip, sie, time, cycle, instret, sscratch, sepc, scause, stval, satp,
  stimecmp,
}
use cpu_io.Riscv64.Info.{
  sstatus_sie, sstatus_spie, sstatus_spp, stvec_base, stvec_mode, sip_ssip, sip_stip, sip_seip,
  sie_ssie, sie_stie, sie_seie, scause_interrupt, scause_exception_code, satp_ppn, satp_asid,
  satp_mode,
}

abbrev pub fp_class : Declared
fp_class = record { base = read_write; members = [] }

abbrev pub tp_class : Declared
tp_class = record { base = read_write; members = [] }

abbrev pub sstatus_class : Declared
sstatus_class = record {
  base = read_write;
  members = (read_write, sstatus_sie) ∷ (read_write, sstatus_spie) ∷ (read_write, sstatus_spp) ∷ [];
}

abbrev pub stvec_class : Declared
stvec_class = record {
  base = read_write;
  members = (read_write, stvec_base) ∷ (read_write, stvec_mode) ∷ [];
}

abbrev pub sip_class : Declared
sip_class = record {
  base = read_write;
  members = (read_write, sip_ssip) ∷ (read_write, sip_stip) ∷ (read_write, sip_seip) ∷ [];
}

abbrev pub sie_class : Declared
sie_class = record {
  base = read_write;
  members = (read_write, sie_ssie) ∷ (read_write, sie_stie) ∷ (read_write, sie_seie) ∷ [];
}

abbrev pub time_class : Declared
time_class = record { base = read_only; members = [] }

abbrev pub cycle_class : Declared
cycle_class = record { base = read_only; members = [] }

abbrev pub instret_class : Declared
instret_class = record { base = read_only; members = [] }

abbrev pub sscratch_class : Declared
sscratch_class = record { base = read_write; members = [] }

abbrev pub sepc_class : Declared
sepc_class = record { base = read_write; members = [] }

abbrev pub scause_class : Declared
scause_class = record {
  base = read_write;
  members = (read_write, scause_interrupt) ∷ (read_write, scause_exception_code) ∷ [];
}

abbrev pub stval_class : Declared
stval_class = record { base = read_write; members = [] }

abbrev pub satp_class : Declared
satp_class = record {
  base = read_write;
  members = (read_write, satp_ppn) ∷ (read_write, satp_asid) ∷ (read_write, satp_mode) ∷ [];
}

abbrev pub stimecmp_class : Declared
stimecmp_class = record { base = read_only; members = [] }

-- The class of a register.
abbrev pub declared : Reg → Declared
declared fp = fp_class
declared tp = tp_class
declared sstatus = sstatus_class
declared stvec = stvec_class
declared sip = sip_class
declared sie = sie_class
declared time = time_class
declared cycle = cycle_class
declared instret = instret_class
declared sscratch = sscratch_class
declared sepc = sepc_class
declared scause = scause_class
declared stval = stval_class
declared satp = satp_class
declared stimecmp = stimecmp_class
