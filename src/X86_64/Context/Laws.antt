-- ===== src/X86_64/Context/Laws.antt =====
-- The placeholders of include/x86_64/context.hpp.
use cpu_io.Base.{◌+◌, ◌≤◌, ◌≡◌, ◌≢◌, ◌⊎◌, true, refl}
use cpu_io.Layout.{size_of, present, offset, bytes_of, members_apart}
use cpu_io.X86_64.Context.{CalleeMember, callee_index, callee_layout}

-- The four accessors of a callee saved context refer to four words of the 32 bytes that share no
-- byte.
pub accessors_apart :
    (m n : CalleeMember)
    → callee_index m ≢ callee_index n
    → present callee_index m callee_layout ≡ true
    → present callee_index n callee_layout ≡ true
    → (size_of callee_layout ≡ 32)
      × ((offset callee_index m callee_layout + bytes_of callee_index m callee_layout
            ≤ offset callee_index n callee_layout)
          ⊎ (offset callee_index n callee_layout + bytes_of callee_index n callee_layout
              ≤ offset callee_index m callee_layout))
accessors_apart m n ne hm hn = (refl, members_apart callee_index m n callee_layout hm hn ne)
