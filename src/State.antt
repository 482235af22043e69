-- ===== src/State.antt =====
-- Actions on a machine's state: how code that reads and writes registers and devices is modelled.
-- An action is `none` where the code has no meaning: it does not compile, or is undefined.
use cpu_io.Base.{Option, none, some}

abbrev pub Run : Type 0 → Type 0 → Type 0
Run S A = S → Option (A × S)

abbrev pub not_compiled : {S A : Type 0} → Run S A
not_compiled s = none

abbrev pub undefined : {S A : Type 0} → Run S A
undefined s = none

infixl 5 ◌>>=◌ ◌>>◌
abbrev pub ◌>>=◌ : {S A B : Type 0} → Run S A → (A → Run S B) → Run S B
◌>>=◌ run next s = elim (run s) [ some (a, s') ↦ next a s' | none ↦ none ]

-- A statement whose value is dropped.
abbrev pub ◌>>◌ : {S B : Type 0} → Run S (Unit {0}) → Run S B → Run S B
run >> next = run >>= λ done. next

abbrev pub pure : {S A : Type 0} → A → Run S A
pure result s = some (result, s)
