-- ===== src/Net/Ranges/First.antt =====
-- The search of the first range of the order: by index, as the code has it, and by name.
use wireguard_ui.Prelude.{
  ℕ, suc, ◌+◌, ◌<◌, String, ◌&&◌, ◌≡◌, refl, ap, inl, inr, Option, none, some, List, [], ◌∷◌,
  length, nat_eq, Bool-cases, if◌then◌else◌, arith,
}
use wireguard_ui.Net.{Ip, IpNet, contains, shortest, same_network, mask_for}
use wireguard_ui.Net.Ranges.{RangeMap, cidrs_of, any_contains, first_range, nth_name}

-- The reference: the name of the first range that has the address.
unfoldable pub first_name : RangeMap → List String → Ip → Option String
first_name m [] ip = none
first_name m (name ∷ names) ip =
    if any_contains (cidrs_of m name) ip then some name else first_name m names ip

contains-same :
    (n : IpNet) (ip ip' : Ip) → shortest ip ≡ shortest ip' → contains n ip ≡ contains n ip'
unfolding contains
contains-same n ip ip' e =
    ap
      (λ (s : Ip).
        nat_eq (length s) (length (shortest n.ip))
        && same_network (shortest n.ip) (mask_for (shortest n.ip) n.mask) s)
      e

any_contains-same :
    (ns : List IpNet) (ip ip' : Ip)
    → shortest ip ≡ shortest ip'
    → any_contains ns ip ≡ any_contains ns ip'
unfolding any_contains
any_contains-same [] ip ip' e = refl
any_contains-same (n ∷ ns) ip ip' e =
    ground (arith, contains-same n ip ip' e, any_contains-same ns ip ip' e)

pub first_range-same :
    (m : RangeMap) (names : List String) (ip ip' : Ip) (i : ℕ)
    → shortest ip ≡ shortest ip'
    → first_range m names ip i ≡ first_range m names ip' i
unfolding first_range
first_range-same m [] ip ip' i e = refl
first_range-same m (name ∷ names) ip ip' i e =
    ground (
      arith,
      any_contains-same (cidrs_of m name) ip ip' e,
      first_range-same m names ip ip' (suc i) e,
    )

pub first_range-none :
    (m : RangeMap) (names : List String) (ip : Ip) (i : ℕ)
    → first_name m names ip ≡ none
    → first_range m names ip i ≡ none
unfolding first_range first_name
first_range-none m [] ip i e = refl
first_range-none m (name ∷ names) ip i e = ground (arith, first_range-none m names ip (suc i))

-- An index that is found counts the names from the first one on.
pub first_range_bounded :
    (m : RangeMap) (names : List String) (ip : Ip) (i j : ℕ)
    → first_range m names ip i ≡ some j
    → j < i + length names
unfolding first_range
first_range_bounded m [] ip i j e = absurd (ground arith)
first_range_bounded m (x ∷ xs) ip i j e = elim (Bool-cases (any_contains (cidrs_of m x) ip)) [
  | inl here ↦ ground arith
  | inr on ↦ let h = first_range_bounded m xs ip (suc i) j (ground arith) in omega arith
]

-- The index that is found is the one of the name.
pub first_range-some :
    (m : RangeMap) (names : List String) (ip : Ip) (i : ℕ) (name : String)
    → first_name m names ip ≡ some name
    → (j : ℕ) × (first_range m names ip i ≡ some (j + i)) × (nth_name names j ≡ some name)
unfolding first_range first_name
first_range-some m [] ip i name e = absurd (ground arith)
first_range-some m (x ∷ xs) ip i name e = elim (Bool-cases (any_contains (cidrs_of m x) ip)) [
  | inl here ↦ (0, ground arith, ground arith)
  | inr on ↦
      let (j, f, g) = first_range-some m xs ip (suc i) name (ground arith) in
      (suc j, ground (arith, f), g)
]
