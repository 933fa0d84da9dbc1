-- ===== src/Net/Pool.antt =====
-- The allocation of client addresses in util/util.go. `net.ParseCIDR` and `IP.String` turn texts into
-- addresses and back; they are the parameters `parse_cidr` and `show`.
pub mod Available
pub mod Allocation
use wireguard_ui.Prelude.{
  ℕ, zero, suc, String, Bool, true, false, not, ◌&&◌, ◌||◌, Option, none, some, List, [], ◌∷◌, ◌++◌,
  ◌==◌, if◌then◌else◌,
}
use wireguard_ui.Prelude
use wireguard_ui.Net.{Ip, IpNet, contains, inc, get_broadcast_ip}

pub record NetText : Type 0 where
  pub parse_cidr : String → Option (Ip × IpNet)
  pub show : Ip → String

-- What a search or a check comes to; `panics` is the nil dereference of an unparsed network.
pub data Search : Type 0 where
  found : String → Search
  bad_cidr exhausted out_of_fuel : Search

pub data Check : Type 0 where
  valid panics : Check
  not_cidr in_use outside : String → Check

module _ (t : NetText) where
  unfoldable pub validate_cidr : String → Bool
  validate_cidr cidr = elim (t.parse_cidr cidr) [ none ↦ false | some _ ↦ true ]

  unfoldable pub validate_cidr_list : List String → Bool → Bool
  unfolding validate_cidr
  validate_cidr_list [] allow_empty = true
  validate_cidr_list (cidr ∷ cidrs) allow_empty =
      if (allow_empty && cidr == "") || validate_cidr cidr
      then validate_cidr_list cidrs allow_empty
      else false

  unfoldable pub get_ip_from_cidr : String → Option String
  get_ip_from_cidr cidr = elim (t.parse_cidr cidr) [ none ↦ none | some (ip, n) ↦ some (t.show ip) ]

  -- One loop of `GetAllocatedIPs`: the addresses of a list of CIDRs after those so far.
  unfoldable pub append_ips : List String → List String → Option (List String)
  unfolding get_ip_from_cidr
  append_ips [] out = some out
  append_ips (cidr ∷ cidrs) out =
      let rest = λ (ip : String). append_ips cidrs (out ++ ip ∷ []) in
      elim (get_ip_from_cidr cidr) [ none ↦ none | some ip ↦ rest ip ]

  -- The records are a client's ID and addresses, or `none` where one does not decode.
  unfoldable pub append_clients :
      String → List (Option (String × List String)) → List String → Option (List String)
  unfolding append_ips
  append_clients ignored [] out = some out
  append_clients ignored (none ∷ rs) out = none
  append_clients ignored (some (id, ips) ∷ rs) out =
      let rest = λ (l : List String). append_clients ignored rs l in
      elim (if id == ignored then some out else append_ips ips out) [
        | none ↦ none
        | some l ↦ rest l
      ]

  -- `GetAllocatedIPs`, from what the two reads of the database give.
  unfoldable pub get_allocated_ips :
      String
      → Option (List String)
      → Option (List (Option (String × List String)))
      → Option (List String)
  unfolding append_ips append_clients
  get_allocated_ips ignored none records = none
  get_allocated_ips ignored (some addresses) records = elim (append_ips addresses []) [
    | none ↦ none
    | some out ↦ elim records [ none ↦ none | some rs ↦ append_clients ignored rs out ]
  ]

  -- The keys of the map that `GetBroadcastAndNetworkAddrsLookup` returns.
  unfoldable pub get_broadcast_and_network_addrs_lookup : List String → List String
  get_broadcast_and_network_addrs_lookup [] = []
  get_broadcast_and_network_addrs_lookup (ifa ∷ ifas) =
      let rest = get_broadcast_and_network_addrs_lookup ifas in
      elim (t.parse_cidr ifa) [
        | none ↦ rest
        | some (ip, n) ↦ t.show (get_broadcast_ip n.ip n.mask) ∷ t.show n.ip ∷ rest
      ]

  unfoldable pub is_available : List String → List String → String → Bool
  is_available allocated unavailable s =
      not (Prelude.contains allocated s) && not (Prelude.contains unavailable s)

  -- The loop of `GetAvailableIP`, on fuel.
  unfoldable pub search_from : ℕ → IpNet → List String → List String → Ip → Search
  unfolding is_available
  search_from zero n allocated unavailable ip = out_of_fuel
  search_from (suc fuel) n allocated unavailable ip =
      let rest = search_from fuel n allocated unavailable (inc ip) in
      if not (contains n ip)
      then exhausted
      else if is_available allocated unavailable (t.show ip)
      then found (t.show ip)
      else rest

  -- `ip.Mask(netAddr.Mask)` is the address of the parsed network.
  unfoldable pub get_available_ip : ℕ → String → List String → List String → Search
  unfolding search_from
  get_available_ip fuel cidr allocated interfaces = elim (t.parse_cidr cidr) [
    | none ↦ bad_cidr
    | some (ip, n) ↦
        search_from fuel n allocated (get_broadcast_and_network_addrs_lookup interfaces) n.ip
  ]

  -- The inner loop over the server's networks: `valid` where one contains the address.
  unfoldable pub in_server_networks : List String → Ip → String → Check
  in_server_networks [] ip cidr = outside cidr
  in_server_networks (server_cidr ∷ rest) ip cidr =
      let later = in_server_networks rest ip cidr in
      elim (t.parse_cidr server_cidr) [
        | none ↦ panics
        | some (_, n) ↦ if contains n ip then valid else later
      ]

  unfoldable pub validate_one : List String → List String → String → Check
  unfolding in_server_networks
  validate_one addresses allocated cidr = elim (t.parse_cidr cidr) [
    | none ↦ not_cidr cidr
    | some (ip, _) ↦
        if Prelude.contains allocated (t.show ip)
        then in_use cidr
        else in_server_networks addresses ip cidr
  ]

  unfoldable pub validate_ip_allocation : List String → List String → List String → Check
  unfolding validate_one
  validate_ip_allocation addresses allocated [] = valid
  validate_ip_allocation addresses allocated (cidr ∷ cidrs) =
      let rest = validate_ip_allocation addresses allocated cidrs in
      elim (validate_one addresses allocated cidr) [ valid ↦ rest | refusal ↦ refusal ]
