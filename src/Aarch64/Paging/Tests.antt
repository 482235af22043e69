-- ===== src/Aarch64/Paging/Tests.antt =====
-- Inputs that meet the hypotheses of the theorems about include/aarch64/virtual_memory.hpp.
use cpu_io.Base.{◌≡◌, true, false, arith}
use cpu_io.Aarch64.Paging.{create_page_table_entry, check_page_table_entry_permissions}
use cpu_io.Aarch64.Paging.Entry.{create_drops_never_execute}

create_drops_never_execute_example :
    check_page_table_entry_permissions
      (create_page_table_entry 0x4008_0000 true true false false true)
      true
      true
      true
      false
    ≡ true
create_drops_never_execute_example =
    create_drops_never_execute 0x4008_0000 true true false false true true true true false
      (omega arith)
