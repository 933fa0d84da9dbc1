-- ===== src/Examples/Addresses.antt =====
-- The address pool over the server's network 10.0.0.1/30.
use wireguard_ui.Prelude.{
  ℕ, String, ◌≡◌, refl, false, Option, none, some, List, [], ◌∷◌, ◌==◌, nat_eq, All, arith,
  if◌then◌else◌,
}
use wireguard_ui.Net.{Ip, IpNet, contains, inc}
use wireguard_ui.Net.Inc.{value}
use wireguard_ui.Net.Pool.{
  NetText, valid, get_available_ip, get_broadcast_and_network_addrs_lookup, validate_ip_allocation,
}
use wireguard_ui.Net.Pool.Available.{inc_times, Finds, get_available_ip-Finds}
use wireguard_ui.Net.Pool.Allocation.{IsAllocatable, validate_ip_allocation-IsAllocatable}

abbrev pub at : ℕ → Ip
at n = 10 ∷ 0 ∷ 0 ∷ n ∷ []

-- The text of an address, for the addresses of this network.
abbrev pub show_ip : Ip → String
show_ip ip =
    if nat_eq (value ip) (value (at 0))
    then "10.0.0.0"
    else if nat_eq (value ip) (value (at 1))
    then "10.0.0.1"
    else if nat_eq (value ip) (value (at 2))
    then "10.0.0.2"
    else if nat_eq (value ip) (value (at 3))
    then "10.0.0.3"
    else "?"

abbrev pub subnet : ℕ → IpNet
subnet bits = record { ip = at 0; mask = 255 ∷ 255 ∷ 255 ∷ bits ∷ [] }

abbrev pub net_text : NetText
net_text = record {
  parse_cidr = λ s.
      if s == "10.0.0.1/30"
      then some (at 1, subnet 252)
      else if s == "10.0.0.2/32"
      then some (at 2, record { ip = at 2; mask = 255 ∷ 255 ∷ 255 ∷ 255 ∷ [] })
      else none;
  show = show_ip;
}

outside_after_four : contains (subnet 252) (inc_times 4 (at 0)) ≡ false
unfolding contains inc
outside_after_four = refl

get_available_ip-Finds_example :
    Finds net_text
      (subnet 252)
      ("10.0.0.1" ∷ [])
      (get_broadcast_and_network_addrs_lookup net_text ("10.0.0.1/30" ∷ []))
      (at 0)
      (get_available_ip net_text 5 "10.0.0.1/30" ("10.0.0.1" ∷ []) ("10.0.0.1/30" ∷ []))
get_available_ip-Finds_example =
    get_available_ip-Finds net_text 5 4 "10.0.0.1/30" ("10.0.0.1" ∷ []) ("10.0.0.1/30" ∷ []) (at 1)
      (subnet 252) refl (omega arith) outside_after_four

abbrev pub server : List String
server = "10.0.0.1/30" ∷ []

free_is_valid :
    validate_ip_allocation net_text server ("10.0.0.1" ∷ []) ("10.0.0.2/32" ∷ []) ≡ valid
unfolding validate_ip_allocation contains
free_is_valid = refl

validate_ip_allocation-IsAllocatable_example :
    All (IsAllocatable net_text server ("10.0.0.1" ∷ [])) ("10.0.0.2/32" ∷ [])
validate_ip_allocation-IsAllocatable_example =
    validate_ip_allocation-IsAllocatable net_text server ("10.0.0.1" ∷ []) ("10.0.0.2/32" ∷ [])
      free_is_valid

abbrev records : List (Option (String × List String))
records = some ("edited", "10.0.0.2/32" ∷ []) ∷ []
