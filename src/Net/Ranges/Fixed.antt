-- ===== src/Net/Ranges/Fixed.antt =====
-- What `ValidateAndFixSubnetRanges` leaves of the ranges.
use wireguard_ui.Prelude.{
  String, Bool, true, false, ◌||◌, ◌≡◌, ◌≢◌, refl, ap, ◌∙◌, inl, inr, Option, none, some, List, [],
  ◌∷◌, ◌==◌, eq_iff, Bool-cases, List-cases, if◌then◌else◌, arith,
}
use wireguard_ui.Prelude
use wireguard_ui.Net.{IpNet}
use wireguard_ui.Net.Pool.{NetText}
use wireguard_ui.Net.Ranges.{
  RangeMap, Ranges, cidrs_of, parse_networks, inside_server, valid_cidrs, fix_range, fix_ranges,
  validate_and_fix_subnet_ranges,
}

module _ (t : NetText) (server : List IpNet) where
  valid_twice :
      (cidrs : List IpNet)
      → valid_cidrs t server (valid_cidrs t server cidrs) ≡ valid_cidrs t server cidrs
  unfolding valid_cidrs
  valid_twice [] = refl
  valid_twice (c ∷ cs) = elim (Bool-cases (inside_server t server c)) [
    | inl e ↦ ground (arith, e, valid_twice cs)
    | inr e ↦ ground (arith, e, valid_twice cs)
  ]

  valid_nil : valid_cidrs t server [] ≡ []
  unfolding valid_cidrs
  valid_nil = refl

  -- The list of a name, where the name's list and its valid part are given.
  fixed_by :
      (m : RangeMap) (rng name : String) (xs vs : List IpNet)
      → cidrs_of m rng ≡ xs
      → valid_cidrs t server xs ≡ vs
      → cidrs_of (fix_range t server m rng) name ≡ (if rng == name then vs else cidrs_of m name)
  unfolding fix_range
  fixed_by m rng name [] vs e f = elim (Bool-cases (rng == name)) [
    | inl same ↦
        ground
          (arith, e, f, valid_nil, ap (λ (n : String). cidrs_of m n) ((eq_iff rng name).0 same))
    | inr other ↦ ground (arith, e)
  ]
  fixed_by m rng name (x ∷ xs) [] e f = ground (arith, e, f)
  fixed_by m rng name (x ∷ xs) (v ∷ vs) e f = ground (arith, e, f)

  cidrs_of-fix_range :
      (m : RangeMap) (rng name : String)
      → cidrs_of (fix_range t server m rng) name
        ≡ (if rng == name then valid_cidrs t server (cidrs_of m name) else cidrs_of m name)
  cidrs_of-fix_range m rng name =
      let f =
        fixed_by m rng name (cidrs_of m rng) (valid_cidrs t server (cidrs_of m rng)) refl refl in
      elim (Bool-cases (rng == name)) [
        | inl same ↦ ground (
          arith,
          f,
          ap (λ (n : String). valid_cidrs t server (cidrs_of m n)) ((eq_iff rng name).0 same),
        )
        | inr other ↦ ground (arith, f)
      ]

  cidrs_of-fix_ranges :
      (rngs : List String) (m : RangeMap) (name : String)
      → cidrs_of (fix_ranges t server m rngs) name ≡ (
          if Prelude.contains rngs name
          then valid_cidrs t server (cidrs_of m name)
          else cidrs_of m name)
  unfolding fix_ranges
  cidrs_of-fix_ranges [] m name = refl
  cidrs_of-fix_ranges (rng ∷ rngs) m name =
      let one = cidrs_of-fix_range m rng name in
      let rest = cidrs_of-fix_ranges rngs (fix_range t server m rng) name in
      elim (Bool-cases (rng == name)) [
        | inl same ↦ elim (Bool-cases (Prelude.contains rngs name)) [
          | inl again ↦
              let e : cidrs_of (fix_range t server m rng) name
                  ≡ valid_cidrs t server (cidrs_of m name) =
                ground (arith, one) in
              ground (arith, rest, e, ap (valid_cidrs t server) e, valid_twice (cidrs_of m name))
          | inr last ↦ ground (arith, one, rest)
        ]
        | inr other ↦
            let e : cidrs_of (fix_range t server m rng) name ≡ cidrs_of m name =
              ground (arith, one) in
            ground (arith, rest, e, ap (valid_cidrs t server) e)
      ]

-- Let the server's addresses parse to networks. The check then succeeds, and of each range that is
-- listed, the CIDRs inside one of these networks are left, in their order; a range that is not listed
-- stays.
pub validate_and_fix_subnet_ranges_lem :
    (t : NetText) (addrs : List String) (server : List IpNet) (r : Ranges) (name : String)
    → parse_networks t addrs ≡ some server
    → let (r', done) = validate_and_fix_subnet_ranges t (some addrs) r in
      (done ≡ true)
      × (r'.order ≡ r.order)
      × (cidrs_of r'.ranges name ≡ (
          if Prelude.contains r.order name
          then valid_cidrs t server (cidrs_of r.ranges name)
          else cidrs_of r.ranges name))
unfolding validate_and_fix_subnet_ranges
validate_and_fix_subnet_ranges_lem t addrs server r name e = elim (List-cases r.order) [
  | inl empty ↦ (ground (arith, empty), ground (arith, empty), ground (arith, empty))
  | inr (x, xs, listed) ↦ (
    ground (arith, e, listed),
    ground (arith, e, listed),
    ground (arith, e, listed, cidrs_of-fix_ranges t server (x ∷ xs) r.ranges name),
  )
]
