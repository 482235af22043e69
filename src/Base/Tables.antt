-- ===== src/Base/Tables.antt =====
-- Truth tables: a test of n Booleans that holds at every row, by evaluation.
use Prim.Native.Nat.{ℕ, zero, suc}
use mathlib.Core.Path.{◌≡◌}
use mathlib.Core.Bool.{Bool, true, false, not, ◌&&◌}
use native.Mathlib.Omega.{arith}

abbrev pub Rows : ℕ → Type 0
Rows zero = Bool
Rows (suc n) = Bool → Rows n

abbrev pub Holds : (n : ℕ) → Rows n → Type 0
Holds zero p = p ≡ true
Holds (suc n) p = (b : Bool) → Holds n (p b)

unfoldable pub tabulate : (n : ℕ) → Rows n → Bool
tabulate zero p = p
tabulate (suc n) p = tabulate n (p true) && tabulate n (p false)

pub tabulate_sound : (n : ℕ) (p : Rows n) → tabulate n p ≡ true → Holds n p
unfolding tabulate
tabulate_sound zero p h = h
tabulate_sound (suc n) p h = elim [
  | true ↦ tabulate_sound n (p true) (ground arith)
  | false ↦ tabulate_sound n (p false) (ground arith)
]

abbrev pub same : Bool → Bool → Bool
same true b = b
same false b = not b

pub eq_of_same : (a b : Bool) → same a b ≡ true → a ≡ b
eq_of_same a b h = ground arith
