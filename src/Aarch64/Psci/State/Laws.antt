-- ===== src/Aarch64/Psci/State/Laws.antt =====
-- How StateID and PowerState of include/aarch64/psci.hpp compare with the documented encoding.
use cpu_io.Base.{ℕ, ◌+◌, ◌*◌, ◌/◌, ◌%◌, ◌^◌, ◌<◌, ◌≡◌, ◌↔◌, refl, arith}
use cpu_io.RegisterInfo.{insert}
use cpu_io.RegisterInfo.Laws.{insert-eq}
use cpu_io.Aarch64.Psci.State.{
  state_core_last, state_system_state, state_cluster_state, state_core_state, state_id,
  power_reserved1, power_level, power_reserved0, power_state_type, power_state_id, power_state,
}

-- The encoding that the comments give: the first member in the highest bits.
abbrev pub documented_state : ℕ → ℕ → ℕ → ℕ → ℕ
documented_state core_last system_state cluster_state core_state =
    core_last * 2 ^ 12 + system_state * 2 ^ 8 + cluster_state * 2 ^ 4 + core_state

state_id-eq :
    (a b c d : ℕ)
    → a < 16
    → b < 16
    → c < 16
    → d < 16
    → state_id a b c d ≡ d * 2 ^ 12 + c * 2 ^ 8 + b * 2 ^ 4 + a
unfolding state_id
state_id-eq a b c d ha hb hc hd =
    let w1 : insert state_core_last 0 a ≡ a =
      omega (arith, insert-eq state_core_last (record { fits = omega arith; ones = refl }) 0 a) in
    let w2 : insert state_system_state a b ≡ b * 2 ^ 4 + a =
      omega
        (arith, insert-eq state_system_state (record { fits = omega arith; ones = refl }) a b) in
    let w3 : insert state_cluster_state (b * 2 ^ 4 + a) c ≡ c * 2 ^ 8 + b * 2 ^ 4 + a = omega (
      arith,
      insert-eq state_cluster_state (record { fits = omega arith; ones = refl }) (b * 2 ^ 4 + a) c,
    ) in
    let w4 : insert state_core_state (c * 2 ^ 8 + b * 2 ^ 4 + a) d
        ≡ d * 2 ^ 12 + c * 2 ^ 8 + b * 2 ^ 4 + a =
      omega (
        arith,
        insert-eq state_core_state (record { fits = omega arith; ones = refl })
            (c * 2 ^ 8 + b * 2 ^ 4 + a) d,
      ) in
    rw (w1, w2, w3, w4) refl

power_state-eq :
    (l t i : ℕ)
    → l < 4
    → t < 2
    → i < 2 ^ 16
    → power_state l t i ≡ i * 2 ^ 16 + t * 2 ^ 15 + l * 2 ^ 6
unfolding power_state
power_state-eq l t i hl ht hi =
    let w1 : insert power_reserved1 0 0 ≡ 0 =
      omega (arith, insert-eq power_reserved1 (record { fits = omega arith; ones = refl }) 0 0) in
    let w2 : insert power_level 0 l ≡ l * 2 ^ 6 =
      omega (arith, insert-eq power_level (record { fits = omega arith; ones = refl }) 0 l) in
    let w3 : insert power_reserved0 (l * 2 ^ 6) 0 ≡ l * 2 ^ 6 = omega (
      arith,
      insert-eq power_reserved0 (record { fits = omega arith; ones = refl }) (l * 2 ^ 6) 0,
    ) in
    let w4 : insert power_state_type (l * 2 ^ 6) t ≡ t * 2 ^ 15 + l * 2 ^ 6 = omega (
      arith,
      insert-eq power_state_type (record { fits = omega arith; ones = refl }) (l * 2 ^ 6) t,
    ) in
    let w5 : insert power_state_id (t * 2 ^ 15 + l * 2 ^ 6) i
        ≡ i * 2 ^ 16 + t * 2 ^ 15 + l * 2 ^ 6 =
      omega (
        arith,
        insert-eq power_state_id (record { fits = omega arith; ones = refl })
            (t * 2 ^ 15 + l * 2 ^ 6) i,
      ) in
    rw (w1, w2, w3, w4, w5) refl

-- With members that fit in their bit-fields, a StateID is the word of the documented encoding
-- exactly if its outer and its inner members are equal. Where the encoding has the power level, the
-- state type and the state id of a PowerState, the word has bits 8 and 9 of the state id, its bit
-- 0, and the state type above the power level.
pub states_reversed :
    (a b c d l t i : ℕ)
    → a < 16
    → b < 16
    → c < 16
    → d < 16
    → l < 4
    → t < 2
    → i < 2 ^ 16
    → ((state_id a b c d ≡ documented_state a b c d) ↔ ((a ≡ d) × (b ≡ c)))
      × (power_state l t i / 2 ^ 24 % 4 ≡ i / 2 ^ 8 % 4)
      × (power_state l t i / 2 ^ 16 % 2 ≡ i % 2)
      × (power_state l t i % 2 ^ 16 ≡ t * 2 ^ 15 + l * 2 ^ 6)
states_reversed a b c d l t i ha hb hc hd hl ht hi =
    let s = state_id-eq a b c d ha hb hc hd in
    let p = power_state-eq l t i hl ht hi in
    (
      (λ e. (omega (arith, s, e), omega (arith, s, e)), λ e. omega (arith, s, e.0, e.1)),
      omega (arith, p),
      omega (arith, p),
      omega (arith, p),
    )
