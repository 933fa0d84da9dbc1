-- ===== src/Net/Pool/Allocation.antt =====
-- What an accepted allocation is.
use wireguard_ui.Prelude.{
  ℕ, String, ◌≡◌, ◌≢◌, refl, ◌⊎◌, inl, inr, ◌↔◌, Bool, true, false, Option, none, some, List, [],
  ◌∷◌, ◌++◌, ◌==◌, eq_iff, eq_refl, All, Bool-cases, Option-cases, if◌then◌else◌, arith,
}
use wireguard_ui.Prelude
use wireguard_ui.Net.{Ip, IpNet, contains}
use wireguard_ui.Net.Pool.{
  NetText, valid, get_ip_from_cidr, append_ips, append_clients, get_allocated_ips,
  in_server_networks, validate_one, validate_ip_allocation,
}

-- Both texts are among the entries of a list.
contains-append :
    (xs ys : List String) (s : String)
    → Prelude.contains (xs ++ ys) s
      ≡ (if Prelude.contains xs s then true else Prelude.contains ys s)
contains-append [] ys s = refl
contains-append (x ∷ xs) ys s = ground (arith, contains-append xs ys s)

module _ (t : NetText) where
  -- The network of some server address contains the address.
  abbrev pub IsServed : List String → Ip → Type 0
  IsServed [] ip = ⊥
  IsServed (a ∷ nets) ip =
      ((i : Ip) × (n : IpNet) × (t.parse_cidr a ≡ some (i, n)) × (contains n ip ≡ true))
      ⊎ IsServed nets ip

  abbrev pub IsAllocatable : List String → List String → String → Type 0
  IsAllocatable addresses allocated cidr =
      (ip : Ip) × (n : IpNet) × (t.parse_cidr cidr ≡ some (ip, n))
      × (Prelude.contains allocated (t.show ip) ≡ false)
      × IsServed addresses ip

  in_server_networks-IsServed :
      (nets : List String) (ip : Ip) (cidr : String)
      → in_server_networks t nets ip cidr ≡ valid
      → IsServed nets ip
  unfolding in_server_networks
  in_server_networks-IsServed [] ip cidr e = absurd (ground arith)
  in_server_networks-IsServed (a ∷ nets) ip cidr e = elim (Option-cases (t.parse_cidr a)) [
    | inl n ↦ absurd (ground arith)
    | inr ((i, n), p) ↦ elim (Bool-cases (contains n ip)) [
      | inl c ↦ inl (i, n, p, c)
      | inr c ↦ inr (in_server_networks-IsServed nets ip cidr (ground arith))
    ]
  ]

  validate_one-IsAllocatable :
      (nets allocated : List String) (cidr : String)
      → validate_one t nets allocated cidr ≡ valid
      → IsAllocatable nets allocated cidr
  unfolding validate_one
  validate_one-IsAllocatable nets allocated cidr e = elim (Option-cases (t.parse_cidr cidr)) [
    | inl n ↦ absurd (ground arith)
    | inr ((ip, n), p) ↦ elim (Bool-cases (Prelude.contains allocated (t.show ip))) [
      | inl c ↦ absurd (ground arith)
      | inr c ↦ (ip, n, p, c, in_server_networks-IsServed nets ip cidr (ground arith))
    ]
  ]

  -- An allocation is accepted only if each of its entries parses, its address is not in the list of
  -- allocated ones, and the network of a server address contains it.
  pub validate_ip_allocation-IsAllocatable :
      (nets allocated cidrs : List String)
      → validate_ip_allocation t nets allocated cidrs ≡ valid
      → All (IsAllocatable nets allocated) cidrs
  unfolding validate_ip_allocation
  validate_ip_allocation-IsAllocatable nets allocated [] e = tt
  validate_ip_allocation-IsAllocatable nets allocated (cidr ∷ cidrs) e = (
    validate_one-IsAllocatable nets allocated cidr (ground arith),
    validate_ip_allocation-IsAllocatable nets allocated cidrs (ground arith),
  )

  -- A list of addresses that has the address of a CIDR.
  abbrev pub Lists : List String → String → Type 0
  Lists l cidr = (s : String) × (get_ip_from_cidr t cidr ≡ some s) × (Prelude.contains l s ≡ true)

  abbrev Grows : List String → List String → Type 0
  Grows out l = (s : String) → Prelude.contains out s ≡ true → Prelude.contains l s ≡ true

  append_ips-Lists :
      (cidrs out l : List String)
      → append_ips t cidrs out ≡ some l
      → Grows out l × All (Lists l) cidrs
  unfolding append_ips
  append_ips-Lists [] out l e = ((λ s h. ground arith), tt)
  append_ips-Lists (cidr ∷ cidrs) out l e = elim (Option-cases (get_ip_from_cidr t cidr)) [
    | inl n ↦ absurd (ground arith)
    | inr (ip, p) ↦
        let (grows, all) = append_ips-Lists cidrs (out ++ ip ∷ []) l (ground arith) in
        (
          (λ s h. grows s (rw (contains-append out (ip ∷ []) s) (ground arith))),
          (
            (ip, p, grows ip (rw (contains-append out (ip ∷ []) ip) (ground (arith, eq_refl ip)))),
            all,
          ),
        )
  ]

  Lists-grow :
      (out l cidrs : List String) → Grows out l → All (Lists out) cidrs → All (Lists l) cidrs
  Lists-grow out l [] g h = tt
  Lists-grow out l (c ∷ cs) g ((s, p, m), h) = ((s, p, g s m), Lists-grow out l cs g h)

  -- The addresses of a client other than the ignored one are in the list.
  abbrev pub ListsOthers : String → List String → Option (String × List String) → Type 0
  ListsOthers ignored l none = Unit
  ListsOthers ignored l (some (id, ips)) = (id == ignored) ≡ false → All (Lists l) ips

  append_clients-ListsOthers :
      (ignored : String) (rs : List (Option (String × List String))) (out l : List String)
      → append_clients t ignored rs out ≡ some l
      → Grows out l × All (ListsOthers ignored l) rs
  unfolding append_clients
  append_clients-ListsOthers ignored [] out l e = ((λ s h. ground arith), tt)
  append_clients-ListsOthers ignored (none ∷ rs) out l e = absurd (ground arith)
  append_clients-ListsOthers ignored (some (id, ips) ∷ rs) out l e =
      elim (Bool-cases (id == ignored)) [
        | inl same ↦
            let (grows, all) = append_clients-ListsOthers ignored rs out l (ground arith) in
            (grows, ((λ other. cc), all))
        | inr other ↦ elim (Option-cases (append_ips t ips out)) [
          | inl n ↦ absurd (ground arith)
          | inr (out', p) ↦
              let (grows', listed) = append_ips-Lists ips out out' p in
              let (grows, all) = append_clients-ListsOthers ignored rs out' l (ground arith) in
              ((λ s h. grows s (grows' s h)), ((λ _. Lists-grow out' l ips grows listed), all))
        ]
      ]

  get_allocated_ips-Lists :
      (ignored : String) (addresses : List String) (rs : List (Option (String × List String)))
      (l : List String)
      → get_allocated_ips t ignored (some addresses) (some rs) ≡ some l
      → All (Lists l) addresses × All (ListsOthers ignored l) rs
  unfolding get_allocated_ips
  get_allocated_ips-Lists ignored addresses rs l e =
      elim (Option-cases (append_ips t addresses [])) [
        | inl n ↦ absurd (ground arith)
        | inr (out, p) ↦
            let (_, listed) = append_ips-Lists addresses [] out p in
            let (grows, all) = append_clients-ListsOthers ignored rs out l (ground arith) in
            (Lists-grow out l addresses grows listed, all)
      ]

  -- Two CIDRs that have different addresses.
  abbrev pub Differs : String → String → Type 0
  Differs cidr other = get_ip_from_cidr t cidr ≢ get_ip_from_cidr t other

  Differs-of_Lists :
      (nets l : List String) (cidr other : String)
      → IsAllocatable nets l cidr
      → Lists l other
      → Differs cidr other
  unfolding get_ip_from_cidr
  Differs-of_Lists nets l cidr other (ip, n, p, fresh, _) (s, q, m) e = ground arith

  Differs-All :
      (nets l others : List String) (cidr : String)
      → IsAllocatable nets l cidr
      → All (Lists l) others
      → All (Differs cidr) others
  Differs-All nets l [] cidr a h = tt
  Differs-All nets l (o ∷ os) cidr a (h, hs) =
      (Differs-of_Lists nets l cidr o a h, Differs-All nets l os cidr a hs)

  -- A CIDR has another address than every CIDR of the clients but the ignored one.
  abbrev pub DiffersFromOthers : String → String → Option (String × List String) → Type 0
  DiffersFromOthers ignored cidr none = Unit
  DiffersFromOthers ignored cidr (some (id, ips)) = (id == ignored) ≡ false → All (Differs cidr) ips

  DiffersFromOthers-All :
      (ignored : String) (nets l : List String) (rs : List (Option (String × List String)))
      (cidr : String)
      → IsAllocatable nets l cidr
      → All (ListsOthers ignored l) rs
      → All (DiffersFromOthers ignored cidr) rs
  DiffersFromOthers-All ignored nets l [] cidr a h = tt
  DiffersFromOthers-All ignored nets l (none ∷ rs) cidr a (_, h) =
      (tt, DiffersFromOthers-All ignored nets l rs cidr a h)
  DiffersFromOthers-All ignored nets l (some (id, ips) ∷ rs) cidr a (h₀, h) = (
    (λ other. Differs-All nets l ips cidr a (h₀ other)),
    DiffersFromOthers-All ignored nets l rs cidr a h,
  )

  fresh-All :
      (ignored : String) (addresses l : List String) (rs : List (Option (String × List String)))
      (cidrs : List String)
      → All (Lists l) addresses
      → All (ListsOthers ignored l) rs
      → All (IsAllocatable addresses l) cidrs
      → All (λ cidr. All (Differs cidr) addresses × All (DiffersFromOthers ignored cidr) rs) cidrs
  fresh-All ignored addresses l rs [] ha hr h = tt
  fresh-All ignored addresses l rs (c ∷ cs) ha hr (h, hs) = (
    (Differs-All addresses l addresses c h ha, DiffersFromOthers-All ignored addresses l rs c h hr),
    fresh-All ignored addresses l rs cs ha hr hs,
  )

  -- Where the list of allocated addresses could be read from the database, an accepted allocation
  -- has no address of the server and none of a client other than the one that is edited.
  pub validate_ip_allocation_fresh :
      (ignored : String) (addresses l cidrs : List String)
      (rs : List (Option (String × List String)))
      → get_allocated_ips t ignored (some addresses) (some rs) ≡ some l
      → validate_ip_allocation t addresses l cidrs ≡ valid
      → All (λ cidr. All (Differs cidr) addresses × All (DiffersFromOthers ignored cidr) rs) cidrs
  validate_ip_allocation_fresh ignored addresses l cidrs rs read ok =
      let (ha, hr) = get_allocated_ips-Lists ignored addresses rs l read in
      fresh-All ignored addresses l rs cidrs ha hr
        (validate_ip_allocation-IsAllocatable addresses l cidrs ok)
