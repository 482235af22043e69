-- ===== src/X86_64/Context.antt =====
-- The saved contexts of include/x86_64/context.hpp. The accessors of TrapContext refer to three
-- function-local variables, one for each accessor and none of them a member.
pub mod Laws
use cpu_io.Base.{ℕ, List, [], ◌∷◌}

pub data CalleeMember : Type 0 where
  saved_return_address saved_stack_pointer saved_entry_function saved_entry_argument : CalleeMember

abbrev pub callee_index : CalleeMember → ℕ
callee_index saved_return_address = 0
callee_index saved_stack_pointer = 1
callee_index saved_entry_function = 2
callee_index saved_entry_argument = 3

abbrev pub callee_layout : List (CalleeMember × ℕ)
callee_layout =
    (saved_return_address, 8)
    ∷ (saved_stack_pointer, 8)
    ∷ (saved_entry_function, 8)
    ∷ (saved_entry_argument, 8)
    ∷ []

abbrev pub return_address : CalleeMember
return_address = saved_return_address

abbrev pub entry_function : CalleeMember
entry_function = saved_entry_function

abbrev pub entry_argument : CalleeMember
entry_argument = saved_entry_argument

abbrev pub stack_pointer : CalleeMember
stack_pointer = saved_stack_pointer

-- The static variables behind the references of TrapContext, which all contexts share.
pub record Dummies : Type 0 where
  pub user_stack_pointer_dummy : ℕ
  pub thread_pointer_dummy : ℕ
  pub return_value_dummy : ℕ
