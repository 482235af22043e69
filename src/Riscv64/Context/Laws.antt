-- ===== src/Riscv64/Context/Laws.antt =====
-- Sizes and places in the saved contexts of include/riscv64/context.hpp.
use cpu_io.Base.{ℕ, ◌+◌, ◌≤◌, ◌≡◌, ◌≢◌, ◌⊎◌, Bool, true, false, if◌then◌else◌, refl, List}
use cpu_io.Layout.{size_of, present, offset, bytes_of, members_apart, end-le}
use cpu_io.Riscv64.Context.{
  TrapMember, CalleeMember, trap_index, callee_index, trap_layout, callee_layout,
}

-- Two members share no byte.
abbrev pub Apart : {A : Type 0} → (A → ℕ) → A → A → List (A × ℕ) → Type 0
Apart index m n ms =
    (offset index m ms + bytes_of index m ms ≤ offset index n ms)
    ⊎ (offset index n ms + bytes_of index n ms ≤ offset index m ms)

trap_size : (fpu : Bool) → size_of (trap_layout fpu) ≡ (if fpu then 544 else 288)
trap_size true = refl
trap_size false = refl

callee_size : (fpu : Bool) → size_of (callee_layout fpu) ≡ (if fpu then 208 else 112)
callee_size true = refl
callee_size false = refl

-- With the floating-point registers or without, the contexts have the asserted sizes, 544 and 208
-- bytes or 288 and 112, any two members of one that it has share no byte, and lie within it.
pub saved_registers :
    (fpu : Bool) (m n : TrapMember) (p q : CalleeMember)
    → present trap_index m (trap_layout fpu) ≡ true
    → present trap_index n (trap_layout fpu) ≡ true
    → present callee_index p (callee_layout fpu) ≡ true
    → present callee_index q (callee_layout fpu) ≡ true
    → trap_index m ≢ trap_index n
    → callee_index p ≢ callee_index q
    → (size_of (trap_layout fpu) ≡ (if fpu then 544 else 288))
      × (size_of (callee_layout fpu) ≡ (if fpu then 208 else 112))
      × Apart trap_index m n (trap_layout fpu)
      × Apart callee_index p q (callee_layout fpu)
      × (offset trap_index m (trap_layout fpu) + bytes_of trap_index m (trap_layout fpu)
          ≤ size_of (trap_layout fpu))
      × (offset callee_index p (callee_layout fpu) + bytes_of callee_index p (callee_layout fpu)
          ≤ size_of (callee_layout fpu))
saved_registers fpu m n p q hm hn hp hq ne nq = (
  trap_size fpu,
  callee_size fpu,
  members_apart trap_index m n (trap_layout fpu) hm hn ne,
  members_apart callee_index p q (callee_layout fpu) hp hq nq,
  end-le trap_index m (trap_layout fpu) hm,
  end-le callee_index p (callee_layout fpu) hp,
)
