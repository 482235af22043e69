-- ===== src/RegisterInfo/Access.antt =====
-- The classes ReadOnlyRegBase, WriteOnlyRegBase and ReadWriteRegBase, and those of fields, as what a
-- register class of a regs.hpp inherits from.
use cpu_io.Base.{Option, none, some, Bool, true, false, List, [], ◌∷◌, ◌&&◌}
use cpu_io.RegisterInfo.{Field}

pub data Access : Type 0 where
  read_only write_only read_write : Access

-- Whether an action has a result: it compiles.
abbrev pub compiles : {A : Type 0} → Option A → Bool
compiles none = false
compiles (some result) = true

pub record Declared : Type 0 where
  pub base : Access
  pub members : List (Access × Field)

abbrev pub reads : Access → Bool
reads read_only = true
reads write_only = false
reads read_write = true

abbrev pub writes : Access → Bool
writes read_only = false
writes write_only = true
writes read_write = true

-- The fields allow what the register allows.
abbrev pub same_access : Access → Access → Bool
same_access read_only read_only = true
same_access write_only write_only = true
same_access read_write read_write = true
same_access _ _ = false

abbrev pub consistent : Access → List (Access × Field) → Bool
consistent base [] = true
consistent base ((access, f) ∷ members) = same_access base access && consistent base members

abbrev pub member_fields : List (Access × Field) → List Field
member_fields [] = []
member_fields ((access, f) ∷ members) = f ∷ member_fields members
