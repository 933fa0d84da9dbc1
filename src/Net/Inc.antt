-- ===== src/Net/Inc.antt =====
-- `inc` counts.
use wireguard_ui.Prelude.{
  ℕ, ◌+◌, ◌*◌, ◌%◌, ◌<◌, ◌≡◌, refl, ap, Bool, true, false, [], ◌∷◌, All, Bool-cases, inl, inr,
  nat_eq, arith,
}
use mathlib.Core.Path.{ap₂}
use native.Mathlib.Nat.{mod-eq_of_lt, mod_self}
use wireguard_ui.Net.{Ip, inc_carry, inc}

-- The number that the bytes stand for, the first byte the highest.
abbrev pub weight : Ip → ℕ
weight [] = 1
weight (b ∷ bs) = 256 * weight bs

abbrev pub value : Ip → ℕ
value [] = 0
value (b ∷ bs) = b * weight bs + value bs

abbrev pub IsBytes : Ip → Type 0
IsBytes = All (λ b. b < 256)

carry_value : Bool → ℕ → ℕ
carry_value true n = n
carry_value false n = 0

weight-inc : (ip : Ip) → weight (inc_carry ip).0 ≡ weight ip
unfolding inc_carry
weight-inc [] = refl
weight-inc (b ∷ bs) = ground (arith, weight-inc bs)

value-inc_carry :
    (ip : Ip)
    → IsBytes ip
    → value (inc_carry ip).0 + carry_value (inc_carry ip).1 (weight ip) ≡ value ip + 1
unfolding inc_carry carry_value
value-inc_carry [] h = omega arith
value-inc_carry (b ∷ bs) h = elim (Bool-cases (inc_carry bs).1) [
  | inr same ↦ ground (arith, weight-inc bs, value-inc_carry bs h.1)
  | inl up ↦ elim (Bool-cases (nat_eq ((b + 1) % 256) 0)) [
    | inl wrap ↦
        let full : b ≡ 255 = ground arith in
        ground (arith, weight-inc bs, value-inc_carry bs h.1, ap (λ (t : ℕ). t * weight bs) full)
    | inr stay ↦
        let next : (b + 1) % 256 ≡ b + 1 = ground arith in
        ground (arith, value-inc_carry bs h.1, ap₂ (λ (t w : ℕ). t * w) next (weight-inc bs))
  ]
]

inc_carry-IsBytes : (ip : Ip) → IsBytes ip → IsBytes (inc_carry ip).0
unfolding inc_carry
inc_carry-IsBytes [] h = tt
inc_carry-IsBytes (b ∷ bs) h = ground (arith, inc_carry-IsBytes bs h.1)

pub inc-IsBytes : (ip : Ip) → IsBytes ip → IsBytes (inc ip)
unfolding inc
inc-IsBytes ip h = inc_carry-IsBytes ip h

value-lt : (ip : Ip) → IsBytes ip → value ip < weight ip
value-lt [] h = omega arith
value-lt (b ∷ bs) h = grind (arith, value-lt bs h.1)

-- `inc` adds one to the number that an address of bytes stands for, modulo 256 to the power of its
-- length.
pub value-inc : (ip : Ip) → IsBytes ip → value (inc ip) ≡ (value ip + 1) % weight ip
unfolding inc carry_value
value-inc ip h =
    let sum = value-inc_carry ip h in
    let small = value-lt ip h in
    let small' = value-lt (inc_carry ip).0 (inc_carry-IsBytes ip h) in
    let same = weight-inc ip in
    elim (Bool-cases (inc_carry ip).1) [
      | inl up ↦
          let all : value ip + 1 ≡ weight ip = ground arith in
          ground (arith, ap (λ (t : ℕ). t % weight ip) all, mod_self (weight ip))
      | inr stay ↦
          let rest : value ip + 1 < weight ip = ground arith in ground (arith, mod-eq_of_lt rest)
    ]
