-- ===== src/X86_64/ReadWrite.antt =====
-- ReadOnlyRegBase, WriteOnlyRegBase and ReadWriteRegBase of include/x86_64/regs/read_write.hpp:
-- one clause for each branch on `RegInfo`.
pub mod Laws
use cpu_io.Base.{
  ℕ, ◌+◌, ◌-◌, ◌^◌, ltb, ◌==◌, if◌then◌else◌, bit_and, bit_or, shl64, shr, not64, u16, u32,
}
use cpu_io.RegisterInfo.{Field}
use cpu_io.X86_64.Machine.{
  Reg, rbp, rflags, gdtr, ldtr, idtr, tr, cr0, cr2, cr3, cr4, cr8, xcr0, cs, ss, ds, es, fs, gs,
  Stores, M, not_compiled, undefined, pure, ◌>>=◌, ◌>>◌, mov_from, mov_to, rdmsr, wrmsr, sti, cli,
}
use cpu_io.X86_64.Info.{rflags_if}

unfoldable pub read : Reg → M ℕ
read ldtr = not_compiled
read tr = not_compiled
read xcr0 = not_compiled
read rbp = mov_from rbp
read rflags = mov_from rflags
read gdtr = mov_from gdtr
read idtr = mov_from idtr
read cr0 = mov_from cr0
read cr2 = mov_from cr2
read cr3 = mov_from cr3
read cr4 = mov_from cr4
read cr8 = mov_from cr8
read cs = mov_from cs
read ss = mov_from ss
read ds = mov_from ds
read es = mov_from es
read fs = mov_from fs
read gs = mov_from gs

-- `Read(offset)` of the MSRs.
unfoldable pub read_msr : ℕ → M ℕ
read_msr offset = do (low, high) ← rdmsr offset; pure (bit_or (shl64 high 32) low)

-- `operator()`.
unfoldable pub call_operator : Reg → M ℕ
call_operator r = read r

module _ ⦃w : Stores⦄ where
  -- The `DataType` of the segment registers is uint16_t; the write of CS is a far return.
  unfoldable pub write : Reg → ℕ → M (Unit {0})
  write ldtr value = not_compiled
  write tr value = not_compiled
  write xcr0 value = not_compiled
  write rbp value = mov_to rbp value
  write rflags value = mov_to rflags value
  write gdtr value = mov_to gdtr value
  write idtr value = mov_to idtr value
  write cr0 value = mov_to cr0 value
  write cr2 value = mov_to cr2 value
  write cr3 value = mov_to cr3 value
  write cr4 value = mov_to cr4 value
  write cr8 value = mov_to cr8 value
  write cs value = mov_to cs (u16 value)
  write ss value = mov_to ss (u16 value)
  write ds value = mov_to ds (u16 value)
  write es value = mov_to es (u16 value)
  write fs value = mov_to fs (u16 value)
  write gs value = mov_to gs (u16 value)

  -- `Write(offset, value)` of the MSRs.
  unfoldable pub write_msr : ℕ → ℕ → M (Unit {0})
  write_msr offset value =
      let low = u32 (bit_and value 0xFFFFFFFF) in
      let high = u32 (shr value 32) in wrmsr offset low high

  -- `1 << offset` in an `int`, converted to 64 bits: bit 31 is the sign, and a longer shift is
  -- undefined.
  unfoldable pub int_bit : ℕ → M ℕ
  int_bit offset =
      if ltb offset 31
      then pure (2 ^ offset)
      else if offset == 31
      then pure (2 ^ 64 - 2 ^ 31)
      else undefined

  -- `bts %%rbp, %0` sets a bit of the scratch register that %0 is, and leaves rbp alone; no `bts`
  -- takes a control register.
  unfoldable pub set_bits : Reg → ℕ → M (Unit {0})
  set_bits rbp offset = pure tt
  set_bits rflags offset =
      if offset == rflags_if.bit_offset
      then sti
      else do old_value ← mov_from rflags; bit ← int_bit offset; write rflags (bit_or old_value bit)
  set_bits _ offset = not_compiled

  unfoldable pub clear_bits : Reg → ℕ → M (Unit {0})
  clear_bits rbp offset = pure tt
  clear_bits rflags offset =
      if offset == rflags_if.bit_offset
      then cli
      else do old_value ← mov_from rflags; write rflags (bit_and old_value (not64 (shl64 1 offset)))
  clear_bits _ offset = not_compiled

  unfoldable pub read_write : Reg → ℕ → M ℕ
  read_write r value = do old_value ← read r; write r value; pure old_value

  unfoldable pub read_set_bits : Reg → ℕ → M ℕ
  read_set_bits r offset = do old_value ← read r; set_bits r offset; pure old_value

  unfoldable pub read_clear_bits : Reg → ℕ → M ℕ
  read_clear_bits r offset = do old_value ← read r; clear_bits r offset; pure old_value

  -- `operator|=`.
  unfoldable pub or_assign : Reg → ℕ → M (Unit {0})
  or_assign r offset = set_bits r offset
