-- ===== src/Aarch64/Context/Laws.antt =====
-- Sizes and places in the saved contexts of include/aarch64/context.hpp.
use cpu_io.Base.{ℕ, ◌+◌, ◌%◌, ◌≤◌, ◌≡◌, ◌≢◌, ◌⊎◌, Bool, true, false, if◌then◌else◌, refl, List}
use cpu_io.Layout.{size_of, present, offset, bytes_of, members_apart, end-le}
use cpu_io.Aarch64.Context.{
  TrapMember, CalleeMember, trap_index, callee_index, trap_layout, callee_layout, elr_el1, q0,
}

-- Two members share no byte.
abbrev pub Apart : {A : Type 0} → (A → ℕ) → A → A → List (A × ℕ) → Type 0
Apart index m n ms =
    (offset index m ms + bytes_of index m ms ≤ offset index n ms)
    ⊎ (offset index n ms + bytes_of index n ms ≤ offset index m ms)

trap_size : (fpu : Bool) → size_of (trap_layout fpu) ≡ (if fpu then 896 else 320)
trap_size true = refl
trap_size false = refl

callee_size : (fpu : Bool) → size_of (callee_layout fpu) ≡ (if fpu then 176 else 112)
callee_size true = refl
callee_size false = refl

system_block : (fpu : Bool) → offset trap_index elr_el1 (trap_layout fpu) % 16 ≡ 0
system_block true = refl
system_block false = refl

-- With the floating-point registers or without, the contexts have the asserted sizes, 896 and 176
-- bytes or 320 and 112, any two members of one that it has share no byte, and lie within it. The
-- system registers start on a multiple of 16, and the vector registers at 256.
pub saved_contexts :
    (fpu : Bool) (m n : TrapMember) (p q : CalleeMember)
    → present trap_index m (trap_layout fpu) ≡ true
    → present trap_index n (trap_layout fpu) ≡ true
    → present callee_index p (callee_layout fpu) ≡ true
    → present callee_index q (callee_layout fpu) ≡ true
    → trap_index m ≢ trap_index n
    → callee_index p ≢ callee_index q
    → (size_of (trap_layout fpu) ≡ (if fpu then 896 else 320))
      × (size_of (callee_layout fpu) ≡ (if fpu then 176 else 112))
      × Apart trap_index m n (trap_layout fpu)
      × Apart callee_index p q (callee_layout fpu)
      × (offset trap_index m (trap_layout fpu) + bytes_of trap_index m (trap_layout fpu)
          ≤ size_of (trap_layout fpu))
      × (offset callee_index p (callee_layout fpu) + bytes_of callee_index p (callee_layout fpu)
          ≤ size_of (callee_layout fpu))
      × (offset trap_index elr_el1 (trap_layout fpu) % 16 ≡ 0)
      × (offset trap_index q0 (trap_layout true) ≡ 256)
saved_contexts fpu m n p q hm hn hp hq ne nq = (
  trap_size fpu,
  callee_size fpu,
  members_apart trap_index m n (trap_layout fpu) hm hn ne,
  members_apart callee_index p q (callee_layout fpu) hp hq nq,
  end-le trap_index m (trap_layout fpu) hm,
  end-le callee_index p (callee_layout fpu) hp,
  system_block fpu,
  refl,
)
