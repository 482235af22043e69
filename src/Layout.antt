-- ===== src/Layout.antt =====
-- Where the members of a struct lie that are laid out one after the other, as those of the
-- context.hpp files: all are 64-bit words or arrays of them, so that there is no padding between
-- them.
use cpu_io.Base.{
  ℕ, ◌+◌, ◌≤◌, ◌≡◌, ◌≢◌, ◌⊎◌, inl, inr, Bool, true, false, ◌||◌, ◌==◌, Bool-cases, if◌then◌else◌,
  List, [], ◌∷◌, arith,
}

abbrev pub size_of {ℓ} : {A : Type ℓ} → List (A × ℕ) → ℕ
size_of [] = 0
size_of ((m, bytes) ∷ ms) = bytes + size_of ms

module _ {A : Type 0} (index : A → ℕ) where
  abbrev pub present : A → List (A × ℕ) → Bool
  present m [] = false
  present m ((n, bytes) ∷ ms) = index m == index n || present m ms

  abbrev pub offset : A → List (A × ℕ) → ℕ
  offset m [] = 0
  offset m ((n, bytes) ∷ ms) = if index m == index n then 0 else bytes + offset m ms

  abbrev pub bytes_of : A → List (A × ℕ) → ℕ
  bytes_of m [] = 0
  bytes_of m ((n, bytes) ∷ ms) = if index m == index n then bytes else bytes_of m ms

  pub end-le :
      (m : A) (ms : List (A × ℕ)) → present m ms ≡ true → offset m ms + bytes_of m ms ≤ size_of ms
  end-le m [] h = cc
  end-le m ((n, bytes) ∷ ms) h = elim (Bool-cases (index m == index n)) [
    | inl e ↦ rw e (omega arith)
    | inr e ↦ let rest = end-le m ms (ground arith) in rw e (omega (arith, rest))
  ]

  -- Two members of one struct share no byte.
  pub members_apart :
      (m n : A) (ms : List (A × ℕ))
      → present m ms ≡ true
      → present n ms ≡ true
      → index m ≢ index n
      → (offset m ms + bytes_of m ms ≤ offset n ms) ⊎ (offset n ms + bytes_of n ms ≤ offset m ms)
  members_apart m n [] h k ne = cc
  members_apart m n ((x, bytes) ∷ ms) h k ne = elim (Bool-cases (index m == index x)) [
    | inl e ↦
        let other : (index n == index x) ≡ false = ground arith in inl (rw (e, other) (omega arith))
    | inr e ↦ elim (Bool-cases (index n == index x)) [
      | inl f ↦ inr (rw (e, f) (omega arith))
      | inr f ↦ elim (members_apart m n ms (ground arith) (ground arith) ne) [
        | inl le ↦ inl (rw (e, f) (omega arith))
        | inr le ↦ inr (rw (e, f) (omega arith))
      ]
    ]
  ]
