-- ===== src/Examples/Ranges.antt =====
-- One subnet range in the server's network 10.0.0.1/30.
use wireguard_ui.Prelude.{
  String, ◌≡◌, refl, sym, none, some, List, [], ◌∷◌, ◌==◌, eq_iff, All, arith, if◌then◌else◌,
  Bool-cases, ◌⊎◌, inl, inr,
}
use wireguard_ui.Text.{has_character}
use wireguard_ui.Net.{Ip, IpNet, contains, inc, shortest, get_broadcast_ip}
use wireguard_ui.Net.Pool.{get_broadcast_and_network_addrs_lookup}
use wireguard_ui.Net.Ranges.{Ranges, suggests, searched, fill_clients, suggest_ip_allocation}
use wireguard_ui.Net.Ranges.Lookup.{IsShown, filled_names, fill_clients-filled_names}
use wireguard_ui.Net.Ranges.Suggested.{IsOffered, suggest_ip_allocation-IsOffered}
use wireguard_ui.Examples.Addresses.{at, subnet, net_text}

abbrev ranges : Ranges
ranges = record {
  ranges = λ name. if name == "staff" then some (subnet 252 ∷ []) else none;
  order = "guests" ∷ "staff" ∷ [];
  cache = λ k. none;
}

-- The two CIDRs that parse have different texts.
parsed :
    (s : String) (ip : Ip) (n : IpNet)
    → net_text.parse_cidr s ≡ some (ip, n)
    → (ip ≡ at 1) ⊎ (ip ≡ at 2)
parsed s ip n e = elim (Bool-cases (s == "10.0.0.1/30")) [
  | inl first ↦ inl (ground (arith, first))
  | inr other ↦ elim (Bool-cases (s == "10.0.0.2/32")) [
    | inl second ↦ inr (ground (arith, other, second))
    | inr unknown ↦ absurd (ground (arith, other, unknown))
  ]
]

differ : ¬ (net_text.show (at 1) ≡ net_text.show (at 2))
differ e = ground (arith, eq_iff "10.0.0.1" "10.0.0.2")

same_text :
    (ip ip' : Ip)
    → (ip ≡ at 1) ⊎ (ip ≡ at 2)
    → (ip' ≡ at 1) ⊎ (ip' ≡ at 2)
    → net_text.show ip ≡ net_text.show ip'
    → shortest ip ≡ shortest ip'
same_text ip ip' (inl e) (inl f) h = rw (e, f) refl
same_text ip ip' (inr e) (inr f) h = rw (e, f) refl
same_text ip ip' (inl e) (inr f) h = absurd (differ (rw f at (rw e at h)))
same_text ip ip' (inr e) (inl f) h = absurd (differ (sym (rw f at (rw e at h))))

net_text-IsShown : IsShown net_text
net_text-IsShown = record {
  same = λ s s' ip ip' n n' e f h. same_text ip ip' (parsed s ip n e) (parsed s' ip' n' f) h;
}

abbrev clients : List (List String × List String)
clients = ("10.0.0.2/32" ∷ [], []) ∷ ("nowhere" ∷ "10.0.0.2/32" ∷ [], "old" ∷ []) ∷ []

fill_clients-filled_names_example :
    (fill_clients net_text ranges clients).1
    ≡ filled_names net_text ranges.ranges ranges.order clients
fill_clients-filled_names_example =
    fill_clients-filled_names net_text-IsShown ranges clients (omega arith)

-- The text of the one network.
abbrev show_net : IpNet → String
show_net n = "10.0.0.1/30"

suggested :
    suggest_ip_allocation net_text show_net 5 ranges "staff"
      (some ("10.0.0.1/30" ∷ []))
      (some ("10.0.0.1" ∷ []))
    ≡ suggests ("10.0.0.2/32" ∷ [])
unfolding suggest_ip_allocation has_character contains get_broadcast_and_network_addrs_lookup
    get_broadcast_ip inc
suggested = refl

suggest_ip_allocation-IsOffered_example :
    All
      (IsOffered net_text show_net
        ("10.0.0.1" ∷ [])
        ("10.0.0.1/30" ∷ [])
        (searched net_text show_net ranges "staff" ("10.0.0.1/30" ∷ [])))
      ("10.0.0.2/32" ∷ [])
suggest_ip_allocation-IsOffered_example =
    suggest_ip_allocation-IsOffered net_text show_net 5 ranges "staff" ("10.0.0.1/30" ∷ [])
      ("10.0.0.1" ∷ []) ("10.0.0.2/32" ∷ []) suggested
