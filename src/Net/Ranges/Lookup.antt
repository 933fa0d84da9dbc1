-- ===== src/Net/Ranges/Lookup.antt =====
-- The cached search of an address's range against the search of the ranges in their order.
use mathlib.Core.List.{append-nil, append_assoc}
use wireguard_ui.Prelude.{
  ℕ, ◌+◌, ◌%◌, ◌≤◌, length, String, ◌≡◌, refl, sym, subst, ap, ◌∙◌, ◌⊎◌, inl, inr, Option, none,
  some, List, [], ◌∷◌, ◌++◌, ◌==◌, eq_iff, Bool-cases, Option-cases, if◌then◌else◌, arith,
}
use wireguard_ui.Net.{Ip, IpNet, shortest}
use wireguard_ui.Net.Pool.{NetText}
use wireguard_ui.Net.Ranges.First.{
  first_name, first_range-same, first_range-none, first_range-some, first_range_bounded,
}
use wireguard_ui.Net.Ranges.{
  RangeMap, Ranges, first_range, nth_name, find_subnet_range_for_ip, fill_client_subnet_range,
  fill_clients,
}

-- Addresses that are parsed and have the same text are the same but for the form of an IPv4 address.
pub record IsShown (t : NetText) : Type 0 where
  pub same :
      (s s' : String) (ip ip' : Ip) (n n' : IpNet)
      → t.parse_cidr s ≡ some (ip, n)
      → t.parse_cidr s' ≡ some (ip', n')
      → t.show ip ≡ t.show ip'
      → shortest ip ≡ shortest ip'

module _ (t : NetText) where
  -- An index fits its type, and what the cache holds is what the search finds.
  pub IsConsistent : Ranges → Type 0
  IsConsistent r =
      (length r.order ≤ 65536)
      × ((s : String) (ip : Ip) (n : IpNet) (i : ℕ)
          → t.parse_cidr s ≡ some (ip, n)
          → r.cache (t.show ip) ≡ some i
          → first_range r.ranges r.order ip 0 ≡ some i)

  range_of : Ranges → String → Option ℕ
  range_of r cidr = elim (t.parse_cidr cidr) [
    | none ↦ none
    | some (ip, n) ↦ first_range r.ranges r.order ip 0
  ]

  -- The names that the reference gives a list of addresses.
  pub names_of : RangeMap → List String → List String → List String
  unfolding first_name
  names_of m order [] = []
  names_of m order (cidr ∷ cidrs) =
      let rest = names_of m order cidrs in
      elim (t.parse_cidr cidr) [
        | none ↦ rest
        | some (ip, n) ↦ elim (first_name m order ip) [ none ↦ rest | some name ↦ name ∷ rest ]
      ]

  -- The reference of a client: the stored names and those of its addresses.
  abbrev pub filled_names :
      RangeMap → List String → List (List String × List String) → List (Option (List String))
  filled_names m order [] = []
  filled_names m order ((ips, names) ∷ cs) =
      some (names ++ names_of m order ips) ∷ filled_names m order cs

module _ {t : NetText} (laws : IsShown t) where
  cached :
      (r : Ranges) (s : String) (ip : Ip) (n : IpNet) (i : ℕ)
      → t.parse_cidr s ≡ some (ip, n)
      → first_range r.ranges r.order ip 0 ≡ some i
      → IsConsistent t r
      → IsConsistent t (record r { cache = λ k. if t.show ip == k then some i else r.cache k })
  unfolding IsConsistent
  cached r s ip n i p e (l, h) = (
    l,
    λ s' ip' n' j p' f. elim (Bool-cases (t.show ip == t.show ip')) [
      | inl same ↦
          let near = laws.same s s' ip ip' n n' p p' ((eq_iff (t.show ip) (t.show ip')).0 same) in
          ground (arith, e, first_range-same r.ranges r.order ip ip' 0 near)
      | inr other ↦ h s' ip' n' j p' (ground arith)
    ],
  )

  -- One search: the same maps, a consistent cache, and the answer of the reference.
  IsFound : Ranges → String → Ranges × Option ℕ → Type 0
  IsFound r cidr o =
      (o.0.ranges ≡ r.ranges)
      × (o.0.order ≡ r.order)
      × IsConsistent t o.0
      × (o.1 ≡ range_of t r cidr)

  by :
      (r : Ranges) (cidr : String) (o : Ranges × Option ℕ)
      → find_subnet_range_for_ip t r cidr ≡ o
      → IsFound r cidr o
      → IsFound r cidr (find_subnet_range_for_ip t r cidr)
  by r cidr o e h = subst (IsFound r cidr) (sym e) h

  find-IsFound :
      (r : Ranges) (cidr : String)
      → IsConsistent t r
      → IsFound r cidr (find_subnet_range_for_ip t r cidr)
  unfolding find_subnet_range_for_ip range_of IsFound IsConsistent
  find-IsFound r cidr h = elim (Option-cases (t.parse_cidr cidr)) [
    | inl e ↦ by r cidr (r, none) (ground (arith, e)) (refl, refl, h, ground (arith, e))
    | inr ((ip, n), e) ↦ elim (Option-cases (r.cache (t.show ip))) [
      | inr (i, f) ↦
          by r cidr (r, some i) (ground (arith, e, f))
            (refl, refl, h, ground (arith, e, h.1 cidr ip n i e f))
      | inl f ↦ elim (Option-cases (first_range r.ranges r.order ip 0)) [
        | inl g ↦
            by r cidr (r, none) (ground (arith, e, f, g)) (refl, refl, h, ground (arith, e, g))
        | inr (i, g) ↦
            let fits : i % 65536 ≡ i =
              omega (arith, first_range_bounded r.ranges r.order ip 0 i g, h.0) in
            by r cidr
              (record r { cache = λ k. if t.show ip == k then some i else r.cache k }, some i)
              (ground (arith, e, f, g, fits))
              (refl, refl, cached r cidr ip n i e g h, ground (arith, e, g))
      ]
    ]
  ]

  -- What a range's index comes to: no name, or the one of the reference.
  named :
      (r : Ranges) (cidr : String) (cidrs : List String)
      → ((range_of t r cidr ≡ none)
          × (names_of t r.ranges r.order (cidr ∷ cidrs) ≡ names_of t r.ranges r.order cidrs))
        ⊎ ((i : ℕ) × (name : String) × (range_of t r cidr ≡ some i)
            × (nth_name r.order i ≡ some name)
            × (names_of t r.ranges r.order (cidr ∷ cidrs)
                ≡ name ∷ names_of t r.ranges r.order cidrs))
  unfolding range_of names_of
  named r cidr cidrs = elim (Option-cases (t.parse_cidr cidr)) [
    | inl e ↦ inl (ground (arith, e), ground (arith, e))
    | inr ((ip, n), e) ↦ elim (Option-cases (first_name r.ranges r.order ip)) [
      | inl f ↦
          inl (ground (arith, e, first_range-none r.ranges r.order ip 0 f), ground (arith, e, f))
      | inr (name, f) ↦
          let (i, g, nth) = first_range-some r.ranges r.order ip 0 name f in
          let z : i + 0 ≡ i = omega arith in
          inr (i + 0, name, ground (arith, e, g), rw z nth, ground (arith, e, f))
    ]
  ]

  -- What the loop leaves: the maps, a consistent cache, and the names so far with the reference's.
  record IsFilled (r : Ranges) (cidrs names : List String) (o : Ranges × Option (List String))
      : Type 0 where
    same_ranges : o.0.ranges ≡ r.ranges
    same_order : o.0.order ≡ r.order
    consistent : IsConsistent t o.0
    filled : o.1 ≡ some (names ++ names_of t r.ranges r.order cidrs)

  -- The turn of one address, from the state after it.
  turn :
      (r r' : Ranges) (cidr : String) (cidrs names names' : List String)
      (o : Ranges × Option (List String))
      → r'.ranges ≡ r.ranges
      → r'.order ≡ r.order
      → names' ++ names_of t r.ranges r.order cidrs
        ≡ names ++ names_of t r.ranges r.order (cidr ∷ cidrs)
      → IsFilled r' cidrs names' o
      → IsFilled r (cidr ∷ cidrs) names o
  turn r r' cidr cidrs names names' o er eo en h = record {
    same_ranges = h.same_ranges ∙ er;
    same_order = h.same_order ∙ eo;
    consistent = h.consistent;
    filled =
        h.filled
        ∙ ap some (
            ap (λ (m : RangeMap). names' ++ names_of t m r'.order cidrs) er
            ∙ ap (λ (l : List String). names' ++ names_of t r.ranges l cidrs) eo
            ∙ en);
  }

  fill-IsFilled :
      (cidrs names : List String) (r : Ranges)
      → IsConsistent t r
      → IsFilled r cidrs names (fill_client_subnet_range t r cidrs names)
  unfolding fill_client_subnet_range names_of IsFound
  fill-IsFilled [] names r h = record {
    same_ranges = refl;
    same_order = refl;
    consistent = h;
    filled = ap some (sym (append-nil names));
  }
  fill-IsFilled (cidr ∷ cidrs) names r h =
      let r' = (find_subnet_range_for_ip t r cidr).0 in
      let (er, eo, hc, ea) = find-IsFound r cidr h in
      elim (named r cidr cidrs) [
        | inl (e, f) ↦
            let step : fill_client_subnet_range t r (cidr ∷ cidrs) names
                ≡ fill_client_subnet_range t r' cidrs names =
              ground (arith, ea, e) in
            subst (IsFilled r (cidr ∷ cidrs) names) (sym step) (
              turn r r' cidr cidrs names names _ er eo (rw f refl)
                (fill-IsFilled cidrs names r' hc))
        | inr (i, name, e, nth, f) ↦
            let nth' : nth_name r'.order i ≡ some name = rw eo nth in
            let step : fill_client_subnet_range t r (cidr ∷ cidrs) names
                ≡ fill_client_subnet_range t r' cidrs (names ++ name ∷ []) =
              ground (arith, ea, e, nth') in
            subst (IsFilled r (cidr ∷ cidrs) names) (sym step) (
              turn r r' cidr cidrs names (names ++ name ∷ []) _ er eo
                (append_assoc names (name ∷ []) (names_of t r.ranges r.order cidrs)
                  ∙ ap (λ (l : List String). names ++ l) (sym f))
                (fill-IsFilled cidrs (names ++ name ∷ []) r' hc))
      ]

  fill_clients_from :
      (cs : List (List String × List String)) (r : Ranges)
      → IsConsistent t r
      → (fill_clients t r cs).1 ≡ filled_names t r.ranges r.order cs
  unfolding fill_clients
  fill_clients_from [] r h = refl
  fill_clients_from ((ips, names) ∷ cs) r h =
      let r' = (fill_client_subnet_range t r ips names).0 in
      let f = fill-IsFilled ips names r h in
      ap (λ (x : Option (List String)). x ∷ (fill_clients t r' cs).1) f.filled
      ∙ ap
          (λ (xs : List (Option (List String))).
            some (names ++ names_of t r.ranges r.order ips) ∷ xs)
          (fill_clients_from cs r' f.consistent
            ∙ ap (λ (m : RangeMap). filled_names t m r'.order cs) f.same_ranges
            ∙ ap (λ (l : List String). filled_names t r.ranges l cs) f.same_order)

  empty-IsConsistent :
      (r : Ranges) → length r.order ≤ 65536 → IsConsistent t (record r { cache = λ k. none })
  unfolding IsConsistent
  empty-IsConsistent r l = (l, λ s ip n i p e. absurd (ground arith))

  -- Let parsed addresses of the same text be the same but for the form of an IPv4 address, and the
  -- order have at most 65,536 ranges, as many as the type of an index has values. From the empty
  -- cache on, over any list of clients, no index is out of range, and each client is given the
  -- ranges stored with it and then, for each of its addresses that parses and lies in some range,
  -- the name of the first range of the order that has it, whatever has been cached in between.
  pub fill_clients-filled_names :
      (r : Ranges) (cs : List (List String × List String))
      → length r.order ≤ 65536
      → (fill_clients t (record r { cache = λ k. none }) cs).1 ≡ filled_names t r.ranges r.order cs
  fill_clients-filled_names r cs l =
      fill_clients_from cs (record r { cache = λ k. none }) (empty-IsConsistent r l)
