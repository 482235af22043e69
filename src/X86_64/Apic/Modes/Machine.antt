-- ===== src/X86_64/Apic/Modes/Machine.antt =====
-- That the mode switches of include/x86_64/apic.hpp follow the state machine of the modes.
use cpu_io.Base.{
  ◌^◌, ◌<◌, ◌≡◌, ◌≢◌, ◌∙◌, sym, ap, refl, arith, some, Bool, true, false, List, [], ◌∷◌, ℕ, ◌/◌,
  ◌%◌, if◌then◌else◌, Bool-cases, inl, inr,
}
use cpu_io.X86_64.Machine.{Stores, Cpu, ◌>>=◌, ◌>>◌}
use cpu_io.X86_64.Apic.Laws.{
  flag, base_address, Answers, base_queries, with_base, switches_written, globally_enabled,
  globally_disabled, x2_enabled, x2_disabled,
}
use cpu_io.X86_64.Apic.Modes.{
  Switch, globally_on, globally_off, x2_on, x2_off, Mode, disabled, xapic, x2apic, invalid, mode_of,
  mode, mode_in, all_legal, GuardsModes, target, targets, legal, switch, run, Step, accepted, Reach,
  here, next,
}

target-on : (g x : Bool) → target globally_on (mode_of g x) ≡ mode_of true x
unfolding target mode_of
target-on true true = refl
target-on true false = refl
target-on false true = refl
target-on false false = refl

target-off : (g x : Bool) → target globally_off (mode_of g x) ≡ mode_of false x
unfolding target mode_of
target-off true true = refl
target-off true false = refl
target-off false true = refl
target-off false false = refl

target-x2_off : (g x : Bool) → target x2_off (mode_of g x) ≡ mode_of g false
unfolding target mode_of
target-x2_off true true = refl
target-x2_off true false = refl
target-x2_off false true = refl
target-x2_off false false = refl

target-x2_on : (m : Mode) → target x2_on m ≡ x2apic
unfolding target
target-x2_on disabled = refl
target-x2_on xapic = refl
target-x2_on x2apic = refl
target-x2_on invalid = refl

-- The mode by the bits of a base register.
mode-eq : {a b g x : Bool} → a ≡ g → b ≡ x → mode_of a b ≡ mode_of g x
mode-eq p q = rw (p, q) refl

-- What a switch keeps besides the mode: the word, the bootstrap flag and the address.
pub record Keeps (c d : Cpu) : Type 0 where
  pub word : d.msr 0x1B < 2 ^ 64
  pub bsp : flag 8 d ≡ flag 8 c
  pub address : base_address d ≡ base_address c

-- What a switch asks for: a base register in the target mode that keeps all else.
record Asked (s : Switch) (b v : ℕ) : Type 0 where
  upper : b / 4096 ≡ v / 4096
  lower : b % 1024 ≡ v % 1024
  word : v < 2 ^ 64
  leads : mode_in v ≡ target s (mode_in b)

module _ ⦃w : Stores⦄ where
  switch-Asked :
      (s : Switch) (c : Cpu)
      → c.msr 0x1B < 2 ^ 64
      → (v : ℕ) × Asked s (c.msr 0x1B) v
        × (switch s c ≡ some (tt, with_base (w.msr_value 0x1B (c.msr 0x1B) v) c))
  unfolding switch mode_of
  switch-Asked globally_on c lt =
      let b = c.msr 0x1B in
      (
        globally_enabled b,
        record {
          upper = omega arith;
          lower = omega arith;
          word = omega arith;
          leads =
              mode-eq {g = true} {x = flag 10 c} (ground arith) (ground arith)
              ∙ sym (target-on (flag 11 c) (flag 10 c));
        },
        (switches_written c lt).0,
      )
  switch-Asked globally_off c lt =
      let b = c.msr 0x1B in
      (
        globally_disabled b,
        record {
          upper = omega arith;
          lower = omega arith;
          word = omega arith;
          leads =
              mode-eq {g = false} {x = flag 10 c} (ground arith) (ground arith)
              ∙ sym (target-off (flag 11 c) (flag 10 c));
        },
        (switches_written c lt).1,
      )
  switch-Asked x2_off c lt =
      let b = c.msr 0x1B in
      (
        x2_disabled b,
        record {
          upper = omega arith;
          lower = omega arith;
          word = omega arith;
          leads =
              mode-eq {g = flag 11 c} {x = false} (ground arith) (ground arith)
              ∙ sym (target-x2_off (flag 11 c) (flag 10 c));
        },
        (switches_written c lt).3,
      )
  switch-Asked x2_on c lt =
      let b = c.msr 0x1B in
      (
        x2_enabled b,
        record {
          upper = omega arith;
          lower = omega arith;
          word = omega arith;
          leads =
              mode-eq {g = true} {x = true} (ground arith) (ground arith)
              ∙ sym (target-x2_on (mode c));
        },
        (switches_written c lt).2,
      )

module _ ⦃w : Stores⦄ (guards : GuardsModes) where
  -- A switch leads to its target where the change is accepted, and else changes nothing.
  switch-guarded :
      (s : Switch) (c : Cpu)
      → c.msr 0x1B < 2 ^ 64
      → (v : ℕ) × Asked s (c.msr 0x1B) v
        × (switch s c
            ≡ some (tt, with_base (if legal (mode c) (target s (mode c)) then v else c.msr 0x1B) c))
  switch-guarded s c lt =
      let asked = switch-Asked s c lt in
      (
        asked.0,
        asked.1,
        asked.2
            ∙ ap (λ (x : ℕ). some (tt, with_base x c))
                (guards (c.msr 0x1B) asked.0 asked.1.upper asked.1.lower
                  ∙ ap (λ (m : Mode). if legal (mode c) m then asked.0 else c.msr 0x1B)
                      asked.1.leads),
      )

  switch-target :
      (s : Switch) (c : Cpu)
      → c.msr 0x1B < 2 ^ 64
      → legal (mode c) (target s (mode c)) ≡ true
      → (d : Cpu) × (switch s c ≡ some (tt, d)) × (mode d ≡ target s (mode c)) × Keeps c d
  switch-target s c lt ok =
      let done = switch-guarded s c lt in
      let asked = done.1 in
      (
        with_base done.0 c,
        done.2 ∙ rw ok refl,
        asked.leads,
        record {
          word = asked.word;
          bsp = ground (arith, asked.lower);
          address = ground (arith, asked.upper);
        },
      )

  run-targets :
      (l : List Switch) (c : Cpu)
      → c.msr 0x1B < 2 ^ 64
      → all_legal l (mode c) ≡ true
      → (d : Cpu) × (run l c ≡ some (tt, d)) × (mode d ≡ targets l (mode c)) × Keeps c d
  unfolding run targets all_legal
  run-targets [] c lt ok = (c, refl, refl, record { word = lt; bsp = refl; address = refl })
  run-targets (s ∷ l) c lt ok =
      let first = switch-target s c lt (ground arith) in
      let later : all_legal l (target s (mode c)) ≡ true = ground arith in
      let rest = run-targets l first.0 first.3.word (rw first.2 later) in
      (
        rest.0,
        rw (first.1, ◌>>◌, ◌>>=◌) rest.1,
        rest.2 ∙ ap (targets l) first.2,
        record {
          word = rest.3.word;
          bsp = rest.3.bsp ∙ first.3.bsp;
          address = rest.3.address ∙ first.3.address;
        },
      )

  -- On a processor that stores the documented changes of the mode and leaves the base register alone
  -- at a write that faults, every sequence of `EnableGlobally`, `DisableGlobally`, `EnableX2Apic` and
  -- `DisableX2Apic` of which each asks for a documented change of the mode that the ones before it
  -- lead to runs to its end, in the mode that the state machine of the modes leads to; the queries
  -- then answer for that mode, with the bootstrap flag and the address of the start.
  pub mode_sequence :
      (l : List Switch) (c : Cpu)
      → c.msr 0x1B < 2 ^ 64
      → all_legal l (mode c) ≡ true
      → (d : Cpu) × (g : Bool) × (x : Bool) × (run l c ≡ some (tt, d))
        × (mode_of g x ≡ targets l (mode c))
        × Answers d (flag 8 c) g x (base_address c)
  mode_sequence l c lt ok =
      let done = run-targets l c lt ok in
      let answers = base_queries done.0 done.3.word in
      (
        done.0,
        flag 11 done.0,
        flag 10 done.0,
        done.1,
        done.2,
        rw (← done.3.bsp, ← done.3.address) answers,
      )

  legal_from_x2apic :
      (s : Switch) → legal x2apic (target s x2apic) ≡ true → target s x2apic ≡ x2apic
  unfolding legal target
  legal_from_x2apic globally_on ok = refl
  legal_from_x2apic globally_off ok = ground arith
  legal_from_x2apic x2_on ok = refl
  legal_from_x2apic x2_off ok = ground arith

  -- A switch from x2APIC mode stays there: it asks for that mode, or faults.
  switched-x2apic :
      (s : Switch) (c : Cpu)
      → mode c ≡ x2apic
      → c.msr 0x1B < 2 ^ 64
      → (d : Cpu) × (switch s c ≡ some (tt, d)) × (mode d ≡ x2apic) × (d.msr 0x1B < 2 ^ 64)
  switched-x2apic s c m lt =
      let done = switch-guarded s c lt in
      elim (Bool-cases (legal (mode c) (target s (mode c)))) [
        | inl ok ↦ (
          with_base done.0 c,
          done.2 ∙ rw ok refl,
          done.1.leads ∙ ap (target s) m ∙ legal_from_x2apic s (rw (← m) ok),
          done.1.word,
        )
        | inr faults ↦ (with_base (c.msr 0x1B) c, done.2 ∙ rw faults refl, m, lt)
      ]

  Step-x2apic :
      {c d : Cpu}
      → Step c d
      → (mode c ≡ x2apic) × (c.msr 0x1B < 2 ^ 64)
      → (mode d ≡ x2apic) × (d.msr 0x1B < 2 ^ 64)
  Step-x2apic {c = c} {d = d} (accepted s e ok) h =
      let done = switched-x2apic s c h.0 h.1 in
      let same : done.0 ≡ d = cc (done.1, e) in rw (← same) (done.2, done.3)

  Reach-x2apic :
      {c d : Cpu}
      → Reach c d
      → (mode c ≡ x2apic) × (c.msr 0x1B < 2 ^ 64)
      → (mode d ≡ x2apic) × (d.msr 0x1B < 2 ^ 64)
  Reach-x2apic here h = h
  Reach-x2apic (next r s) h = Step-x2apic s (Reach-x2apic r h)

  -- One accepted switch.
  step :
      (s : Switch) (c : Cpu)
      → c.msr 0x1B < 2 ^ 64
      → legal (mode c) (target s (mode c)) ≡ true
      → (d : Cpu) × Step c d × (mode d ≡ target s (mode c)) × (d.msr 0x1B < 2 ^ 64)
  step s c lt ok =
      let done = switch-target s c lt ok in
      (done.0, accepted s done.1 (rw done.2 ok), done.2, done.3.word)

  Enters : Cpu → Type 0
  Enters b = (d : Cpu) × Reach b d × (mode d ≡ x2apic) × (d.msr 0x1B < 2 ^ 64)

  from_xapic : (b c : Cpu) → Reach b c → c.msr 0x1B < 2 ^ 64 → mode c ≡ xapic → Enters b
  unfolding legal target Enters
  from_xapic b c r lt m =
      let on = step x2_on c lt (rw m refl) in
      (on.0, next r on.1, on.2 ∙ target-x2_on (mode c), on.3)

  enters : (m : Mode) (c : Cpu) → c.msr 0x1B < 2 ^ 64 → mode c ≡ m → m ≢ invalid → Enters c
  unfolding legal target Enters
  enters disabled c lt m h =
      let on = step globally_on c lt (rw m refl) in
      from_xapic c on.0 (next here on.1) on.3 (on.2 ∙ rw m refl)
  enters xapic c lt m h = from_xapic c c here lt m
  enters x2apic c lt m h = (c, here, m, lt)
  enters invalid c lt m h = absurd (h refl)

  -- On a processor that stores the documented changes of the mode and leaves the base register alone
  -- at a write that faults, the switches lead from any mode but the invalid one to the x2APIC mode; and from there, every
  -- state that they reach is in the x2APIC mode: they have no accepted way out.
  pub x2apic_kept :
      (c : Cpu)
      → c.msr 0x1B < 2 ^ 64
      → mode c ≢ invalid
      → (d : Cpu) × Reach c d × (mode d ≡ x2apic) × ((e : Cpu) → Reach d e → mode e ≡ x2apic)
  unfolding Enters
  x2apic_kept c lt valid =
      let entered = enters (mode c) c lt refl valid in
      (entered.0, entered.1, entered.2, λ e r. (Reach-x2apic r (entered.2, entered.3)).0)
