-- ===== src/WakeOnLan/Hosts/Keyed.antt =====
-- Every host is stored under the name of its MAC address.
use wireguard_ui.Prelude.{
  ℕ, String, ◌≡◌, Option, none, some, List, [], ◌∷◌, eq_iff, Bool-cases, Option-cases, inl, inr,
  arith,
}
use wireguard_ui.Session.Values.{Reply}
use wireguard_ui.Store.{Driver, IsDriver}
use wireguard_ui.WakeOnLan.{
  Host, HostBody, Saved, resolve_resource_name, get_wake_on_lan_host, delete_wake_on_host_lan_host,
  save_wake_on_lan_host, store_host, move_host, post_host, delete_wake_on_host, wake_on_host,
}

pub record IsResolved (D : Driver Host) (d : D.Dir) : Type 0 where
  pub at :
      (j : String) (h : Host) → D.read d j ≡ some h → resolve_resource_name h.mac_address ≡ some j

-- A request's route and body; of a wake-up the time and what becomes of the packet.
pub data HostRequest : Type 0 where
  posts : Option HostBody → HostRequest
  deletes : String → HostRequest
  wakes : String → ℕ → Option Reply → HostRequest

module _ (D : Driver Host) where
  unfoldable pub serve : D.Dir → HostRequest → Saved D
  serve d (posts b) = post_host D d b
  serve d (deletes mac) = delete_wake_on_host D d mac
  serve d (wakes mac now sent) = wake_on_host D d mac now sent

  unfoldable pub run : D.Dir → List HostRequest → D.Dir
  unfolding serve
  run d [] = d
  run d (q ∷ qs) = run (serve d q).0 qs

module _ {D : Driver Host} (laws : IsDriver D) where
  write-IsResolved :
      (d : D.Dir) (n : String) (h : Host)
      → resolve_resource_name h.mac_address ≡ some n
      → IsResolved D d
      → IsResolved D (D.write d n h).0
  write-IsResolved d n h e r = record {
    at = λ j g s. elim (Bool-cases (D.write d n h).1) [
      | inl done ↦ ground (arith, laws.read-write d n h j done, r.at j g, eq_iff n j)
      | inr failed ↦ ground (arith, laws.read-write_failed d n h j failed, r.at j g)
    ];
  }

  remove-IsResolved : (d : D.Dir) (n : String) → IsResolved D d → IsResolved D (D.delete d n).0
  remove-IsResolved d n r = record {
    at = λ j g s. elim (Bool-cases (D.delete d n).1) [
      | inl done ↦ ground (arith, laws.read-delete d n j done, r.at j g)
      | inr failed ↦ ground (arith, laws.read-delete_failed d n j failed, r.at j g)
    ];
  }

  save-IsResolved :
      (d : D.Dir) (h : Host) → IsResolved D d → IsResolved D (save_wake_on_lan_host D d h).0
  unfolding save_wake_on_lan_host
  save-IsResolved d h r = elim (Option-cases (resolve_resource_name h.mac_address)) [
    | inl bad ↦ ground arith
    | inr (n, e) ↦ ground (arith, write-IsResolved d n h e r)
  ]

  delete-IsResolved :
      (d : D.Dir) (mac : String)
      → IsResolved D d
      → IsResolved D (delete_wake_on_host_lan_host D d mac).0
  unfolding delete_wake_on_host_lan_host
  delete-IsResolved d mac r = elim (Option-cases (resolve_resource_name mac)) [
    | inl bad ↦ ground arith
    | inr (n, e) ↦ ground (arith, remove-IsResolved d n r)
  ]

  store_host-IsResolved :
      (d : D.Dir) (h : Host) → IsResolved D d → IsResolved D (store_host D d h).0
  unfolding store_host
  store_host-IsResolved d h r = ground (arith, save-IsResolved d h r)

  move_host-IsResolved :
      (d : D.Dir) (b : HostBody) → IsResolved D d → IsResolved D (move_host D d b).0
  unfolding move_host
  move_host-IsResolved d b r = elim (Option-cases (get_wake_on_lan_host D d b.old_mac_address)) [
    | inl absent ↦ ground arith
    | inr (old, f) ↦
        let d' = (delete_wake_on_host_lan_host D d b.old_mac_address).0 in
        let new : Host = record {
          mac_address = b.mac_address;
          name = b.name;
          latest_used = old.latest_used;
        } in
        ground (
          arith,
          store_host-IsResolved d' new (delete-IsResolved d b.old_mac_address r),
          delete-IsResolved d b.old_mac_address r,
        )
  ]

  serve-IsResolved : (d : D.Dir) (q : HostRequest) → IsResolved D d → IsResolved D (serve D d q).0
  unfolding serve post_host delete_wake_on_host wake_on_host
  serve-IsResolved d (posts none) r = r
  serve-IsResolved d (posts (some b)) r =
      let new : Host = record { mac_address = b.mac_address; name = b.name; latest_used = none } in
      ground (arith, store_host-IsResolved d new r, move_host-IsResolved d b r)
  serve-IsResolved d (deletes mac) r = elim (Option-cases (get_wake_on_lan_host D d mac)) [
    | inl absent ↦ ground arith
    | inr (h, f) ↦ ground (arith, delete-IsResolved d h.mac_address r)
  ]
  serve-IsResolved d (wakes mac now sent) r = elim (Option-cases (get_wake_on_lan_host D d mac)) [
    | inl absent ↦ ground arith
    | inr (h, f) ↦ elim (Option-cases sent) [
      | inl fine ↦ ground (arith, save-IsResolved d (record h { latest_used = some now }) r)
      | inr (reply, bad) ↦ ground (arith, save-IsResolved d (record h { latest_used = some now }) r)
    ]
  ]

  -- On a driver with the stated laws, over any history of requests that save, delete and wake hosts,
  -- whatever they answer, every host stays stored under the name of its MAC address.
  pub run-IsResolved :
      (d : D.Dir) (qs : List HostRequest) → IsResolved D d → IsResolved D (run D d qs)
  unfolding run
  run-IsResolved d [] r = r
  run-IsResolved d (q ∷ qs) r = run-IsResolved (serve D d q).0 qs (serve-IsResolved d q r)
