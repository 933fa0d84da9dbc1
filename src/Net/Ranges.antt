-- ===== src/Net/Ranges.antt =====
-- The subnet ranges: `ParseSubnetRanges` of util/config.go, the functions of util/util.go on the maps
-- `SubnetRanges` and `IPToSubnetRange` and the list `SubnetRangesOrder`, and `SuggestIPAllocation` of
-- handler/routes.go.
pub mod First
pub mod Lookup
pub mod Fixed
pub mod Suggested
use Prim.Native.String
use wireguard_ui.Prelude.{
  ℕ, zero, suc, String, Bool, true, false, not, ◌&&◌, ◌||◌, Option, none, some, List, [], ◌∷◌, ◌++◌,
  ◌==◌, ◌%◌, if◌then◌else◌,
}
use wireguard_ui.Prelude
use wireguard_ui.Text.{trim_space, trim_separators_left, trim_separators_right, has_character}
use wireguard_ui.Text.Split.{split}
use wireguard_ui.Net.{Ip, IpNet, contains, contains_cidr}
use wireguard_ui.Net.Pool.{NetText, found, get_available_ip, get_allocated_ips}

-- A range's CIDRs under its name; a name of no range is not there.
abbrev pub RangeMap : Type 0
RangeMap = String → Option (List IpNet)

abbrev pub put_range : RangeMap → String → Option (List IpNet) → RangeMap
put_range m k v j = if k == j then v else m j

abbrev pub cidrs_of : RangeMap → String → List IpNet
cidrs_of m name = elim (m name) [ none ↦ [] | some cidrs ↦ cidrs ]

-- `SubnetRanges`, `SubnetRangesOrder` and `IPToSubnetRange`.
pub record Ranges : Type 0 where
  pub ranges : RangeMap
  pub order : List String
  pub cache : String → Option ℕ

-- While the text is parsed: the map, the order and the texts of the CIDRs so far.
pub record Parsing : Type 0 where
  pub map_so_far : RangeMap
  pub order_so_far : List String
  pub seen : List String

-- `show_net` is `IPNet.String`.
module _ (t : NetText) (show_net : IpNet → String) where
  -- The inner loop: the CIDRs of one range, and the texts seen.
  unfoldable pub parse_cidrs : List String → List IpNet → List String → List IpNet × List String
  parse_cidrs [] out seen = (out, seen)
  parse_cidrs (cidr ∷ cidrs) out seen = elim (t.parse_cidr (trim_space cidr)) [
    | none ↦ parse_cidrs cidrs out seen
    | some (ip, n) ↦
        let known = Prelude.contains seen (show_net n) in
        parse_cidrs cidrs (if known then out else out ++ n ∷ [])
          (if known then seen else show_net n ∷ seen)
  ]

  unfoldable pub parse_range : List String → Parsing → Parsing
  unfolding parse_cidrs split
  parse_range (name ∷ cidrs ∷ []) p =
      let (parsed, seen) = parse_cidrs (split b',' cidrs) [] p.seen in
      let key = trim_space name in
      elim parsed [
        | [] ↦ record p { map_so_far = put_range p.map_so_far key none; seen = seen }
        | n ∷ ns ↦ record {
          map_so_far = put_range p.map_so_far key (some (n ∷ ns));
          order_so_far = p.order_so_far ++ key ∷ [];
          seen = seen;
        }
      ]
  parse_range _ p = p

  unfoldable pub parse_each : List String → Parsing → Parsing
  unfolding parse_range split
  parse_each [] p = p
  parse_each (rng ∷ rngs) p = parse_each rngs (parse_range (split b':' (trim_space rng)) p)

  -- `SubnetRanges = ParseSubnetRanges(text)`, which appends to the order.
  unfoldable pub parse_subnet_ranges : String → Ranges → Ranges
  unfolding parse_each split trim_separators_left trim_separators_right
  parse_subnet_ranges text r =
      if text == ""
      then record r { ranges = λ k. none }
      else (let trimmed = trim_separators_right (trim_separators_left (trim_space text)) in
          let p =
            parse_each (split b';' trimmed)
              (record { map_so_far = λ k. none; order_so_far = r.order; seen = [] }) in
          record r { ranges = p.map_so_far; order = p.order_so_far })

-- The search for the first range of the order that has the address.
unfoldable pub any_contains : List IpNet → Ip → Bool
any_contains [] ip = false
any_contains (n ∷ ns) ip = contains n ip || any_contains ns ip

unfoldable pub first_range : RangeMap → List String → Ip → ℕ → Option ℕ
unfolding any_contains
first_range m [] ip i = none
first_range m (name ∷ names) ip i =
    let rest = first_range m names ip (suc i) in
    if any_contains (cidrs_of m name) ip then some i else rest

abbrev nth_name : List String → ℕ → Option String
nth_name [] i = none
nth_name (x ∷ xs) zero = some x
nth_name (x ∷ xs) (suc i) = nth_name xs i

module _ (t : NetText) where
  -- `findSubnetRangeForIP`, of which the index is a `uint16`.
  unfoldable pub find_subnet_range_for_ip : Ranges → String → Ranges × Option ℕ
  unfolding first_range
  find_subnet_range_for_ip r cidr = elim (t.parse_cidr cidr) [
    | none ↦ (r, none)
    | some (ip, n) ↦ elim (r.cache (t.show ip)) [
      | some i ↦ (r, some i)
      | none ↦ elim (first_range r.ranges r.order ip 0) [
        | none ↦ (r, none)
        | some i ↦
            let sr = i % 65536 in
            (record r { cache = λ k. if t.show ip == k then some sr else r.cache k }, some sr)
      ]
    ]
  ]

  -- The loop of `FillClientSubnetRange`: the names after those so far; `none` is an index out of
  -- range.
  unfoldable pub fill_client_subnet_range :
      Ranges → List String → List String → Ranges × Option (List String)
  unfolding find_subnet_range_for_ip
  fill_client_subnet_range r [] names = (r, some names)
  fill_client_subnet_range r (ip ∷ ips) names =
      let (r', sr) = find_subnet_range_for_ip r ip in
      elim sr [
        | none ↦ fill_client_subnet_range r' ips names
        | some i ↦ elim (nth_name r'.order i) [
          | none ↦ (r', none)
          | some name ↦ fill_client_subnet_range r' ips (names ++ name ∷ [])
        ]
      ]

  -- The loop of `GetClients` over the clients' addresses and the ranges that are stored with them.
  unfoldable pub fill_clients :
      Ranges → List (List String × List String) → Ranges × List (Option (List String))
  unfolding fill_client_subnet_range
  fill_clients r [] = (r, [])
  fill_clients r ((ips, names) ∷ cs) =
      let (r', filled) = fill_client_subnet_range r ips names in
      let (r'', rest) = fill_clients r' cs in (r'', filled ∷ rest)

  -- The networks of the server's addresses, or an error.
  unfoldable pub parse_networks : List String → Option (List IpNet)
  parse_networks [] = some []
  parse_networks (addr ∷ addrs) =
      let rest = parse_networks addrs in
      elim (t.parse_cidr (trim_space addr)) [
        | none ↦ none
        | some (ip, n) ↦ elim rest [ none ↦ none | some ns ↦ some (n ∷ ns) ]
      ]

  unfoldable pub inside_server : List IpNet → IpNet → Bool
  inside_server [] cidr = false
  inside_server (n ∷ ns) cidr = contains_cidr n cidr || inside_server ns cidr

  unfoldable pub valid_cidrs : List IpNet → List IpNet → List IpNet
  unfolding inside_server
  valid_cidrs server [] = []
  valid_cidrs server (cidr ∷ cidrs) =
      let rest = valid_cidrs server cidrs in if inside_server server cidr then cidr ∷ rest else rest

  unfoldable pub fix_range : List IpNet → RangeMap → String → RangeMap
  fix_range server m rng = elim (cidrs_of m rng) [
    | [] ↦ m
    | n ∷ ns ↦ elim (valid_cidrs server (n ∷ ns)) [
      | [] ↦ put_range m rng none
      | v ∷ vs ↦ put_range m rng (some (v ∷ vs))
    ]
  ]

  unfoldable pub fix_ranges : List IpNet → RangeMap → List String → RangeMap
  unfolding fix_range
  fix_ranges server m [] = m
  fix_ranges server m (rng ∷ rngs) = fix_ranges server (fix_range server m rng) rngs

  -- `ValidateAndFixSubnetRanges`; `none` are addresses that cannot be read.
  unfoldable pub validate_and_fix_subnet_ranges : Option (List String) → Ranges → Ranges × Bool
  unfolding parse_networks fix_ranges valid_cidrs
  validate_and_fix_subnet_ranges addresses r = elim r.order [
    | [] ↦ (r, true)
    | name ∷ names ↦ elim addresses [
      | none ↦ (r, false)
      | some addrs ↦ elim (parse_networks addrs) [
        | none ↦ (r, false)
        | some server ↦ (record r { ranges = fix_ranges server r.ranges (name ∷ names) }, true)
      ]
    ]
  ]

-- The answer of `SuggestIPAllocation`: the suggestions, in whichever order, or an error's status.
pub data Suggestions : Type 0 where
  suggests : List String → Suggestions
  unavailable : ℕ → Suggestions

abbrev pub with_bits : String → String
with_bits ip = String.◌++◌ ip (if has_character b':' ip then "/128" else "/32")

module _ (t : NetText) (show_net : IpNet → String) where
  -- A key put into the set.
  abbrev pub put_key : String → List String → List String
  put_key k keys = if Prelude.contains keys k then keys else k ∷ keys

  -- The loop over the CIDRs, each of which is searched on fuel: the set of suggestions.
  unfoldable pub suggest_each : ℕ → List String → List String → List String → List String
  unfolding get_available_ip has_character
  suggest_each fuel allocated interfaces [] = []
  suggest_each fuel allocated interfaces (cidr ∷ cidrs) =
      let rest = suggest_each fuel allocated interfaces cidrs in
      elim (get_available_ip t fuel cidr allocated interfaces) [
        | found ip ↦ put_key (with_bits ip) rest
        | _ ↦ rest
      ]

  abbrev shown : List IpNet → List String
  shown [] = []
  shown (n ∷ ns) = show_net n ∷ shown ns

  -- The CIDRs that are searched: those of the range `sr`, or the server's addresses.
  unfoldable pub searched : Ranges → String → List String → List String
  searched r sr addresses = elim (r.ranges sr) [ none ↦ addresses | some cidrs ↦ shown cidrs ]

  -- From what the reads of the server and of the allocated addresses give.
  unfoldable pub suggest_ip_allocation :
      ℕ → Ranges → String → Option (List String) → Option (List String) → Suggestions
  unfolding suggest_each searched
  suggest_ip_allocation fuel r sr none allocated = unavailable 400
  suggest_ip_allocation fuel r sr (some addresses) none = unavailable 500
  suggest_ip_allocation fuel r sr (some addresses) (some allocated) =
      elim (suggest_each fuel allocated addresses (searched r sr addresses)) [
        | [] ↦ unavailable 500
        | ip ∷ ips ↦ suggests (ip ∷ ips)
      ]
