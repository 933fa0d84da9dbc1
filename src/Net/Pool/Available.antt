-- ===== src/Net/Pool/Available.antt =====
-- `GetAvailableIP` finds the first free address of the network, and ends where the network does.
use wireguard_ui.Prelude.{
  ℕ, zero, suc, ◌+◌, ◌<◌, String, ◌≡◌, refl, ◌⊎◌, inl, inr, Bool, true, false, not, ◌&&◌, Option,
  none, some, List, Bool-cases, if◌then◌else◌, arith,
}
use wireguard_ui.Prelude
use wireguard_ui.Net.{Ip, IpNet, contains, inc}
use wireguard_ui.Net.Pool.{
  NetText, Search, found, exhausted, is_available, search_from, get_available_ip,
  get_broadcast_and_network_addrs_lookup,
}

-- The address that is `n` steps after another one.
abbrev pub inc_times : ℕ → Ip → Ip
inc_times zero ip = ip
inc_times (suc n) ip = inc_times n (inc ip)

module _ (t : NetText) (n : IpNet) (allocated unavailable : List String) where
  -- An address of the network that is neither allocated nor reserved, or one that is.
  abbrev pub IsFree : Ip → Type 0
  IsFree ip =
      (contains n ip ≡ true)
      × (Prelude.contains allocated (t.show ip) ≡ false)
      × (Prelude.contains unavailable (t.show ip) ≡ false)

  abbrev pub IsUsed : Ip → Type 0
  IsUsed ip =
      (contains n ip ≡ true)
      × ((Prelude.contains allocated (t.show ip) ≡ true)
          ⊎ (Prelude.contains unavailable (t.show ip) ≡ true))

  -- The search passes `m` used addresses and takes the next, or the network ends there.
  abbrev pub Finds : Ip → Search → Type 0
  Finds ip r =
      (m : ℕ) × ((j : ℕ) → j < m → IsUsed (inc_times j ip))
      × ((IsFree (inc_times m ip) × (r ≡ found (t.show (inc_times m ip))))
          ⊎ ((contains n (inc_times m ip) ≡ false) × (r ≡ exhausted)))

  later :
      (ip : Ip) (m : ℕ)
      → IsUsed ip
      → ((j : ℕ) → j < m → IsUsed (inc_times j (inc ip)))
      → (j : ℕ) → j < suc m
      → IsUsed (inc_times j ip)
  later ip m u us zero h = u
  later ip m u us (suc j) h = us j (omega arith)

  skip :
      (fuel : ℕ) (ip : Ip)
      → IsUsed ip
      → Finds (inc ip) (search_from t fuel n allocated unavailable (inc ip))
      → Finds ip (search_from t (suc fuel) n allocated unavailable ip)
  unfolding search_from
  skip fuel ip u (m, us, inl (free, e)) = (suc m, later ip m u us, inl (free, ground arith))
  skip fuel ip u (m, us, inr (ends, e)) = (suc m, later ip m u us, inr (ends, ground arith))

  used_of_unavailable :
      (ip : Ip)
      → contains n ip ≡ true
      → is_available t allocated unavailable (t.show ip) ≡ false
      → IsUsed ip
  unfolding is_available
  used_of_unavailable ip inside used = (
    inside,
    elim (Bool-cases (Prelude.contains allocated (t.show ip))) [
      | inl a ↦ inl a
      | inr a ↦ inr (ground arith)
    ],
  )

  ends_here :
      (fuel : ℕ) (ip : Ip)
      → contains n ip ≡ false
      → Finds ip (search_from t (suc fuel) n allocated unavailable ip)
  unfolding search_from
  ends_here fuel ip ends = (0, (λ j l. absurd (omega arith)), inr (ends, ground arith))

  takes_here :
      (fuel : ℕ) (ip : Ip)
      → contains n ip ≡ true
      → is_available t allocated unavailable (t.show ip) ≡ true
      → Finds ip (search_from t (suc fuel) n allocated unavailable ip)
  unfolding search_from
  takes_here fuel ip inside free =
      (0, (λ j l. absurd (omega arith)), inl (ground arith, ground arith))

  search_from-Finds :
      (fuel last : ℕ) (ip : Ip)
      → last < fuel
      → contains n (inc_times last ip) ≡ false
      → Finds ip (search_from t fuel n allocated unavailable ip)
  search_from-Finds zero last ip h e = absurd (omega arith)
  search_from-Finds (suc fuel) zero ip h e = ends_here fuel ip e
  search_from-Finds (suc fuel) (suc last) ip h e = elim (Bool-cases (contains n ip)) [
    | inr ends ↦ ends_here fuel ip ends
    | inl inside ↦ elim (Bool-cases (is_available t allocated unavailable (t.show ip))) [
      | inl free ↦ takes_here fuel ip inside free
      | inr used ↦
          skip fuel ip (used_of_unavailable ip inside used)
            (search_from-Finds fuel last (inc ip) (omega arith) e)
    ]
  ]

-- For a text that parses to a network, and fuel for the steps to some address outside of it, the
-- search passes only addresses of the network that are allocated or are the network or broadcast
-- address of an interface, and then answers with the first address that is neither, or that there
-- is none where the network ends.
pub get_available_ip-Finds :
    (t : NetText) (fuel last : ℕ) (cidr : String) (allocated interfaces : List String) (ip : Ip)
    (n : IpNet)
    → t.parse_cidr cidr ≡ some (ip, n)
    → last < fuel
    → contains n (inc_times last n.ip) ≡ false
    → Finds t n allocated
        (get_broadcast_and_network_addrs_lookup t interfaces)
        n.ip
        (get_available_ip t fuel cidr allocated interfaces)
unfolding get_available_ip
get_available_ip-Finds t fuel last cidr allocated interfaces ip n e h ends =
    let r =
      search_from-Finds t n allocated (get_broadcast_and_network_addrs_lookup t interfaces) fuel
        last n.ip h ends in
    rw (e, get_available_ip) r
