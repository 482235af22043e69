-- ===== src/Output.antt =====
-- What operator.cpp hands to `printf`: the format and its arguments. The stream that the operators
-- take and return is not used.
use package.text.Mathlib.Text.{◌==◌ as ◌same◌}
use cpu_io.Base.{
  ℕ, Bool, false, zero, suc, ltb, ◌!=◌, if◌then◌else◌, Option, none, some, List, [], ◌∷◌,
}
pub use Prim.Native.String.{String}

-- A number, and a `const char *`, which is `none` for a null pointer.
pub data Argument : Type 0 where
  number : ℕ → Argument
  string : Option String → Argument

pub record Printed : Type 0 where
  pub format : String
  pub arguments : List Argument

abbrev pub printed : String → List Argument → Printed
printed format arguments = record { format = format; arguments = arguments }

-- `flag ? set : clear`.
abbrev pub choice : ℕ → String → String → Argument
choice flag set clear = string (some (if flag != 0 then set else clear))

abbrev pub enabled : ℕ → Argument
enabled flag = choice flag "Enable" "Disable"

-- `names[i]` of an array of that many pointers: none out of its bounds, and a null pointer where it
-- has no initialiser.
abbrev pub get_elem? : List String → ℕ → Option String
get_elem? [] i = none
get_elem? (name ∷ names) zero = some name
get_elem? (name ∷ names) (suc i) = get_elem? names i

unfoldable pub element : ℕ → List String → ℕ → Option (Option String)
element count names i = if ltb i count then some (get_elem? names i) else none

abbrev has_name : String → Option String → Bool
has_name name none = false
has_name name (some other) = other same name

-- What a name stands for by a naming: the first of the list with it.
abbrev pub first_with : {A : Type 0} → (A → Option String) → String → List A → Option A
first_with naming name [] = none
first_with naming name (a ∷ l) =
    if has_name name (naming a) then some a else first_with naming name l
