-- ===== src/Net/Ranges/Suggested.antt =====
-- What `SuggestIPAllocation` offers.
use wireguard_ui.Prelude.{
  ℕ, zero, suc, String, Bool, true, false, not, ◌&&◌, ◌≡◌, refl, ◌⊎◌, inl, inr, Option, none, some,
  List, [], ◌∷◌, ◌==◌, All, eq_refl, ap, sym, subst, Bool-cases, Option-cases, List-cases,
  if◌then◌else◌, arith,
}
use wireguard_ui.Prelude
use wireguard_ui.Net.{Ip, IpNet, contains, inc}
use wireguard_ui.Net.Pool.{
  NetText, Search, found, bad_cidr, exhausted, out_of_fuel, is_available, search_from,
  get_available_ip, get_broadcast_and_network_addrs_lookup,
}
use wireguard_ui.Net.Ranges.{
  Ranges, suggests, with_bits, put_key, suggest_each, searched, suggest_ip_allocation,
}

module _ (t : NetText) (show_net : IpNet → String) (allocated interfaces : List String) where
  -- A free address of the network that a CIDR of the list parses to.
  abbrev pub IsOffered : List String → String → Type 0
  IsOffered cidrs s =
      (cidr : String) × (host ip : Ip) × (n : IpNet) × (Prelude.contains cidrs cidr ≡ true)
      × (t.parse_cidr cidr ≡ some (host, n))
      × (s ≡ with_bits (t.show ip))
      × (contains n ip ≡ true)
      × (Prelude.contains allocated (t.show ip) ≡ false)
      × (Prelude.contains (get_broadcast_and_network_addrs_lookup t interfaces) (t.show ip) ≡ false)

  found_free :
      (fuel : ℕ) (n : IpNet) (lookup : List String) (ip : Ip) (s : String)
      → search_from t fuel n allocated lookup ip ≡ found s
      → (ip' : Ip) × (s ≡ t.show ip')
        × (contains n ip' ≡ true)
        × (Prelude.contains allocated (t.show ip') ≡ false)
        × (Prelude.contains lookup (t.show ip') ≡ false)
  unfolding search_from
  found_free zero n lookup ip s e = absurd (ground arith)
  found_free (suc fuel) n lookup ip s e = elim (Bool-cases (contains n ip)) [
    | inr ends ↦ absurd (ground (arith, ends))
    | inl inside ↦ elim (Bool-cases (is_available t allocated lookup (t.show ip))) [
      | inl free ↦
          (ip, ground (arith, inside, free), inside, ground (arith, free), ground (arith, free))
      | inr used ↦ found_free fuel n lookup (inc ip) s (ground (arith, inside, used))
    ]
  ]

  later : (c s : String) (cidrs : List String) → IsOffered cidrs s → IsOffered (c ∷ cidrs) s
  later c s cidrs (cidr, host, ip, n, h, p, q, a, b, d) =
      (cidr, host, ip, n, ground (arith, h), p, q, a, b, d)

  All-later :
      (c : String) (cidrs ss : List String)
      → All (IsOffered cidrs) ss
      → All (IsOffered (c ∷ cidrs)) ss
  All-later c cidrs [] h = tt
  All-later c cidrs (s ∷ ss) h = (later c s cidrs h.0, All-later c cidrs ss h.1)

  All-put_key :
      (P : String → Type 0) (k : String) (keys : List String)
      → P k
      → All P keys
      → All P (put_key t show_net k keys)
  All-put_key P k keys h hs = elim (Bool-cases (Prelude.contains keys k)) [
    | inl known ↦ rw known hs
    | inr new ↦ rw new (h, hs)
  ]

  offered :
      (fuel : ℕ) (c s : String) (cidrs : List String)
      → get_available_ip t fuel c allocated interfaces ≡ found s
      → IsOffered (c ∷ cidrs) (with_bits s)
  unfolding get_available_ip
  offered fuel c s cidrs e = elim (Option-cases (t.parse_cidr c)) [
    | inl f ↦ absurd (ground (arith, f))
    | inr ((host, n), f) ↦
        let (ip, es, inside, free, unreserved) =
          found_free fuel n (get_broadcast_and_network_addrs_lookup t interfaces) n.ip s
            (ground (arith, f)) in
        (c, host, ip, n, ground (arith, eq_refl c), f, ap with_bits es, inside, free, unreserved)
  ]

  -- One turn, by what the search comes to.
  turn : Search → List String → List String
  turn (found ip) rest = put_key t show_net (with_bits ip) rest
  turn bad_cidr rest = rest
  turn exhausted rest = rest
  turn out_of_fuel rest = rest

  by_result :
      (fuel : ℕ) (c : String) (cidrs rest : List String) (r : Search)
      → get_available_ip t fuel c allocated interfaces ≡ r
      → All (IsOffered (c ∷ cidrs)) rest
      → All (IsOffered (c ∷ cidrs)) (turn r rest)
  unfolding turn
  by_result fuel c cidrs rest (found ip) e h =
      All-put_key (IsOffered (c ∷ cidrs)) (with_bits ip) rest (offered fuel c ip cidrs e) h
  by_result fuel c cidrs rest bad_cidr e h = h
  by_result fuel c cidrs rest exhausted e h = h
  by_result fuel c cidrs rest out_of_fuel e h = h

  turn_lem :
      (fuel : ℕ) (c : String) (cs : List String) (r : Search)
      → get_available_ip t fuel c allocated interfaces ≡ r
      → suggest_each t show_net fuel allocated interfaces (c ∷ cs)
        ≡ turn r (suggest_each t show_net fuel allocated interfaces cs)
  unfolding suggest_each turn
  turn_lem fuel c cs (found ip) e = ground (arith, e)
  turn_lem fuel c cs bad_cidr e = ground (arith, e)
  turn_lem fuel c cs exhausted e = ground (arith, e)
  turn_lem fuel c cs out_of_fuel e = ground (arith, e)

  suggest_each-IsOffered :
      (fuel : ℕ) (cidrs : List String)
      → All (IsOffered cidrs) (suggest_each t show_net fuel allocated interfaces cidrs)
  unfolding suggest_each
  suggest_each-IsOffered fuel [] = tt
  suggest_each-IsOffered fuel (c ∷ cs) =
      let rest = suggest_each t show_net fuel allocated interfaces cs in
      let r = get_available_ip t fuel c allocated interfaces in
      subst (All (IsOffered (c ∷ cs))) (sym (turn_lem fuel c cs r refl))
        (by_result fuel c cs rest r refl (All-later c cs rest (suggest_each-IsOffered fuel cs)))

-- Each suggestion, for whichever range and with whatever fuel, is the text of an address, with the
-- full number of bits, that lies in the network of one of the searched CIDRs, those of the range or
-- else the server's addresses, and is neither allocated nor the network or broadcast address of one of
-- the server's addresses.
pub suggest_ip_allocation-IsOffered :
    (t : NetText) (show_net : IpNet → String) (fuel : ℕ) (r : Ranges) (sr : String)
    (addresses allocated ips : List String)
    → suggest_ip_allocation t show_net fuel r sr (some addresses) (some allocated) ≡ suggests ips
    → All (IsOffered t show_net allocated addresses (searched t show_net r sr addresses)) ips
unfolding suggest_ip_allocation
suggest_ip_allocation-IsOffered t show_net fuel r sr addresses allocated ips e =
    let cidrs = searched t show_net r sr addresses in
    let keys = suggest_each t show_net fuel allocated addresses cidrs in
    let kept : keys ≡ ips = elim (List-cases keys) [
      | inl none_found ↦ absurd (ground (arith, none_found))
      | inr (k, ks, some_found) ↦ ground (arith, some_found)
    ] in
    subst (All (IsOffered t show_net allocated addresses cidrs)) kept
      (suggest_each-IsOffered t show_net allocated addresses fuel cidrs)
