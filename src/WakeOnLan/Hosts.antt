-- ===== src/WakeOnLan/Hosts.antt =====
-- What the handlers keep and change of the stored hosts.
pub mod Keyed
use wireguard_ui.Prelude.{
  ℕ, String, ◌≡◌, ◌≢◌, refl, sym, ap, ◌∙◌, Bool, true, false, not, Option, none, some, ◌==◌, eq_iff,
  Bool-cases, Option-cases, inl, inr, if◌then◌else◌, arith,
}
use mathlib.Core.Path.{subst}
use wireguard_ui.Store.{Driver, IsDriver}
use wireguard_ui.WakeOnLan.{
  Host, HostBody, WolReply, host, resolve_resource_name, get_wake_on_lan_host,
  delete_wake_on_host_lan_host, save_wake_on_lan_host, store_host, move_host, post_host,
}

-- The collection after a host was stored under `n`, with the one under `m` taken away before.
abbrev pub IsPut : (D : Driver Host) → D.Dir → D.Dir → String → Host → Type 0
IsPut D d d' n h = (j : String) → D.read d' j ≡ (if n == j then some h else D.read d j)

abbrev pub IsMoved : (D : Driver Host) → D.Dir → D.Dir → String → String → Host → Type 0
IsMoved D d d' m n h =
    (j : String) → D.read d' j ≡ (if n == j then some h else if m == j then none else D.read d j)

-- The host of the payload took the place of the one under the old MAC address.
abbrev pub Moves : (D : Driver Host) → D.Dir → D.Dir → HostBody → Host → Type 0
Moves D d d' b h =
    (m : String) × (n : String) × (old : Host) × (resolve_resource_name b.old_mac_address ≡ some m)
    × (resolve_resource_name b.mac_address ≡ some n)
    × (D.read d m ≡ some old)
    × (D.read d n ≡ none)
    × (h ≡ record { mac_address = b.mac_address; name = b.name; latest_used = old.latest_used })
    × IsMoved D d d' m n h

module _ {D : Driver Host} (laws : IsDriver D) where
  store_host-IsPut :
      (d : D.Dir) (h h' : Host)
      → (store_host D d h).1 ≡ host h'
      → (n : String) × (resolve_resource_name h.mac_address ≡ some n)
        × (h' ≡ h)
        × IsPut D d (store_host D d h).0 n h
  unfolding store_host save_wake_on_lan_host
  store_host-IsPut d h h' e = elim (Option-cases (resolve_resource_name h.mac_address)) [
    | inl bad ↦ absurd (ground arith)
    | inr (n, r) ↦ (n, r, ground arith, λ j. ground (arith, laws.read-write d n h j))
  ]

  -- On a driver with the stated laws, when `SaveWakeOnLanHost` answers a payload without an old MAC
  -- address with a host, the payload's MAC address is valid, no host was stored for it, the host
  -- with the payload's data is stored for it now, never used, and every other host is as before.
  pub post_host_adds :
      (d : D.Dir) (b : HostBody) (h : Host)
      → b.old_mac_address ≡ ""
      → (post_host D d (some b)).1 ≡ host h
      → (n : String) × (resolve_resource_name b.mac_address ≡ some n)
        × (D.read d n ≡ none)
        × (h ≡ record { mac_address = b.mac_address; name = b.name; latest_used = none })
        × IsPut D d (post_host D d (some b)).0 n h
  unfolding post_host get_wake_on_lan_host
  post_host_adds d b h fresh e =
      let new : Host = record { mac_address = b.mac_address; name = b.name; latest_used = none } in
      elim (Option-cases (get_wake_on_lan_host D d b.mac_address)) [
        | inr (old, f) ↦ absurd (ground (arith, eq_iff b.old_mac_address ""))
        | inl free ↦
            let stored : (store_host D d new).1 ≡ host h =
              ground (arith, eq_iff b.old_mac_address "") in
            let (n, r, same, put) = store_host-IsPut d new h stored in
            (n, r, ground arith, same, λ j. ground (arith, put j, eq_iff b.old_mac_address ""))
      ]

  found_at :
      (d : D.Dir) (mac : String) (h : Host)
      → get_wake_on_lan_host D d mac ≡ some h
      → (m : String) × (resolve_resource_name mac ≡ some m) × (D.read d m ≡ some h)
  unfolding get_wake_on_lan_host
  found_at d mac h e = elim (Option-cases (resolve_resource_name mac)) [
    | inl bad ↦ absurd (ground arith)
    | inr (m, r) ↦ (m, r, ground arith)
  ]

  absent_at :
      (d : D.Dir) (mac n : String)
      → get_wake_on_lan_host D d mac ≡ none
      → resolve_resource_name mac ≡ some n
      → D.read d n ≡ none
  unfolding get_wake_on_lan_host
  absent_at d mac n e r = ground arith

  deleted_at :
      (d : D.Dir) (mac m j : String)
      → resolve_resource_name mac ≡ some m
      → (delete_wake_on_host_lan_host D d mac).1 ≡ true
      → D.read (delete_wake_on_host_lan_host D d mac).0 j ≡ (if m == j then none else D.read d j)
  unfolding delete_wake_on_host_lan_host
  deleted_at d mac m j r done = ground (arith, laws.read-delete d m j)

  -- The branch of `move_host` that answers with a host, and what it stores.
  move_host_stores :
      (d : D.Dir) (b : HostBody) (h old : Host)
      → get_wake_on_lan_host D d b.old_mac_address ≡ some old
      → (move_host D d b).1 ≡ host h
      → (get_wake_on_lan_host D d b.mac_address ≡ none)
        × ((delete_wake_on_host_lan_host D d b.old_mac_address).1 ≡ true)
        × (move_host D d b
            ≡ store_host D (delete_wake_on_host_lan_host D d b.old_mac_address).0 (record {
              mac_address = b.mac_address;
              name = b.name;
              latest_used = old.latest_used;
            }))
  unfolding move_host
  move_host_stores d b h old f e = elim (Option-cases (get_wake_on_lan_host D d b.mac_address)) [
    | inr (x, taken) ↦ absurd (ground arith)
    | inl free ↦ elim (Bool-cases (delete_wake_on_host_lan_host D d b.old_mac_address).1) [
      | inr stuck ↦ absurd (ground arith)
      | inl done ↦ (free, done, ground arith)
    ]
  ]

  move_host-Moves :
      (d : D.Dir) (b : HostBody) (h : Host)
      → (move_host D d b).1 ≡ host h
      → Moves D d (move_host D d b).0 b h
  unfolding move_host
  move_host-Moves d b h e = elim (Option-cases (get_wake_on_lan_host D d b.old_mac_address)) [
    | inl absent ↦ absurd (ground arith)
    | inr (old, f) ↦
        let d' = (delete_wake_on_host_lan_host D d b.old_mac_address).0 in
        let new : Host = record {
          mac_address = b.mac_address;
          name = b.name;
          latest_used = old.latest_used;
        } in
        let (free, done, same) = move_host_stores d b h old f e in
        let (m, r, at) = found_at d b.old_mac_address old f in
        let (n, r', put_new, put) = store_host-IsPut d' new h (sym (ap (λ s. s.1) same) ∙ e) in
        (
          m,
          n,
          old,
          r,
          r',
          at,
          absent_at d b.mac_address n free r',
          put_new,
          λ j.
              ap (λ s. D.read s.0 j) same
              ∙ ground (arith, put j, deleted_at d b.old_mac_address m j r done),
        )
  ]

  post_host_of_move :
      (d : D.Dir) (b : HostBody)
      → b.old_mac_address ≢ ""
      → b.old_mac_address ≢ b.mac_address
      → post_host D d (some b) ≡ move_host D d b
  unfolding post_host
  post_host_of_move d b edit other =
      ground (arith, eq_iff b.old_mac_address "", eq_iff b.old_mac_address b.mac_address)

  -- On a driver with the stated laws, when `SaveWakeOnLanHost` answers a payload with another, old
  -- MAC address with a host, a host was stored for the old one and none for the new one, the host
  -- with the payload's data and the old one's time of use is stored for the new one now, none is
  -- for the old one, and every other host is as before.
  pub post_host-Moves :
      (d : D.Dir) (b : HostBody) (h : Host)
      → b.old_mac_address ≢ ""
      → b.old_mac_address ≢ b.mac_address
      → (post_host D d (some b)).1 ≡ host h
      → Moves D d (post_host D d (some b)).0 b h
  post_host-Moves d b h edit other e =
      let moved = post_host_of_move d b edit other in
      subst (λ s. Moves D d s.0 b h) (sym moved)
        (move_host-Moves d b h (sym (ap (λ s. s.1) moved) ∙ e))
