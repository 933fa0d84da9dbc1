-- ===== src/Clients/Create/Fresh.antt =====
-- What a stored new client is.
use wireguard_ui.Prelude.{
  String, ◌≡◌, ◌≢◌, refl, true, false, Option, some, List, map, eq_iff, All, Bool-cases,
  Option-cases, inl, inr, arith,
}
use wireguard_ui.Store.{Driver, IsDriver}
use wireguard_ui.Telegram.{parse_int}
use wireguard_ui.Net.Pool.{NetText, valid, get_allocated_ips, validate_ip_allocation}
use wireguard_ui.Net.Pool.Allocation.{Differs, DiffersFromOthers, validate_ip_allocation_fresh}
use wireguard_ui.Clients.{Client, World, get_clients, save_client}
use wireguard_ui.Clients.Index.{HasGoodId, IsTracked, save_client-IsTracked}
use wireguard_ui.Clients.Create.{
  Request, stored, is_bad_tg_userid, allocation_of, allocations, has_public_key, allocated_but,
  with_preshared_key, with_keys, with_addresses, new_client,
}

module _ (D : Driver Client) (t : NetText) (w : World D) (r : Request) where
  -- What the client that is written takes from the one that is given.
  record IsFrom (c c' : Client) : Type 0 where
    allocated_ips : c'.allocated_ips ≡ c.allocated_ips
    tg_userid : c'.tg_userid ≡ c.tg_userid
    public_key : c'.public_key ≡ c.public_key

  with_preshared_key-IsFrom :
      (c c' : Client) → (with_preshared_key D t w r c).1 ≡ stored c' → IsFrom c c'
  unfolding with_preshared_key
  with_preshared_key-IsFrom c c' e = ground arith

  abbrev IsNewKey : Client → Client → Type 0
  IsNewKey c c' =
      c.public_key ≢ ""
      → (cs : List Client) × (get_clients D w ≡ some cs) × (has_public_key cs c'.public_key ≡ false)

  with_keys-IsNewKey : (c c' : Client) → (with_keys D t w r c).1 ≡ stored c' → IsNewKey c c'
  unfolding with_keys
  with_keys-IsNewKey c c' e given = elim (Option-cases (get_clients D w)) [
    | inl n ↦ absurd (ground (arith, eq_iff c.public_key ""))
    | inr (cs, p) ↦ (cs, p, ground (arith, eq_iff c.public_key "", with_preshared_key-IsFrom c c'))
  ]

  record IsKept (c c' : Client) : Type 0 where
    allocated_ips : c'.allocated_ips ≡ c.allocated_ips
    tg_userid : c'.tg_userid ≡ c.tg_userid

  with_keys-IsKept : (c c' : Client) → (with_keys D t w r c).1 ≡ stored c' → IsKept c c'
  unfolding with_keys
  with_keys-IsKept c c' e = ground arith

  with_addresses-IsKept :
      (addresses : List String) (c c' : Client)
      → (with_addresses D t w r addresses c).1 ≡ stored c'
      → IsKept c c'
        × (validate_ip_allocation t addresses
              (allocated_but D t "" (some addresses) w)
              c.allocated_ips
            ≡ valid)
        × ((with_keys D t w r (record c { id = r.guid })).1 ≡ stored c')
  unfolding with_addresses
  with_addresses-IsKept addresses c c' e =
      ground (arith, with_keys-IsKept (record c { id = r.guid }) c')

  new_client_stored :
      (addresses : List String) (c c' : Client)
      → (new_client D t w r (some addresses) c).1 ≡ stored c'
      → (is_bad_tg_userid c.tg_userid ≡ false)
        × ((with_addresses D t w r addresses c).1 ≡ stored c')
  unfolding new_client
  new_client_stored addresses c c' e = ground arith

  -- A new client that is stored has no address of the server and none of a stored client, where the
  -- addresses of the server and of every stored client could be read.
  pub new_client_fresh :
      (addresses l : List String) (rs : List (Option Client)) (c c' : Client)
      → D.read_all w.dir ≡ some rs
      → get_allocated_ips t "" (some addresses) (allocations (some rs)) ≡ some l
      → (new_client D t w r (some addresses) c).1 ≡ stored c'
      → All
          (λ cidr.
            All (Differs t cidr) addresses
            × All (DiffersFromOthers t "" cidr) (map allocation_of rs))
          c'.allocated_ips
  unfolding allocated_but
  new_client_fresh addresses l rs c c' listed read e =
      let (good, passed) = new_client_stored addresses c c' e in
      let (kept, ok, keyed) = with_addresses-IsKept addresses c c' passed in
      let known : allocated_but D t "" (some addresses) w ≡ l = ground arith in
      rw kept.allocated_ips (
        validate_ip_allocation_fresh t "" addresses l c.allocated_ips (map allocation_of rs) read
          (rw (← known) ok))

  -- A new client that is stored with a public key of its own has one that no stored client has.
  pub new_client_new_key :
      (addresses : List String) (c c' : Client)
      → c.public_key ≢ ""
      → (new_client D t w r (some addresses) c).1 ≡ stored c'
      → (cs : List Client) × (get_clients D w ≡ some cs) × (has_public_key cs c'.public_key ≡ false)
  new_client_new_key addresses c c' given e =
      let (good, passed) = new_client_stored addresses c c' e in
      let (kept, ok, keyed) = with_addresses-IsKept addresses c c' passed in
      with_keys-IsNewKey (record c { id = r.guid }) c' keyed given

  -- The world is the old one, or that after writing a client with the given Telegram user id.
  module _ (P : World D → Type 0) (same : P w) where
    abbrev Writes : Client → Type 0
    Writes c = (f : Client) → f.tg_userid ≡ c.tg_userid → P (save_client D f w).0

    with_preshared_key_world : (c : Client) → Writes c → P (with_preshared_key D t w r c).0
    unfolding with_preshared_key
    with_preshared_key_world c h =
        let dated = record c { created_at = r.now; updated_at = r.now } in
        elim (Option-cases r.preshared_key) [
          | inl n ↦ ground (arith, h dated refl, h (record dated { preshared_key = "" }) refl)
          | inr (key, e) ↦ ground (
            arith,
            h dated refl,
            h (record dated { preshared_key = "" }) refl,
            h (record dated { preshared_key = key }) refl,
          )
        ]

    with_keys_world : (c : Client) → Writes c → P (with_keys D t w r c).0
    unfolding with_keys
    with_keys_world c h = elim (Option-cases r.key_pair) [
      | inl n ↦ ground (arith, with_preshared_key_world c h)
      | inr ((private, public), e) ↦ ground (
        arith,
        with_preshared_key_world c h,
        with_preshared_key_world (record c { private_key = private; public_key = public }) h,
      )
    ]

    new_client_world :
        (server : Option (List String)) (c : Client)
        → (is_bad_tg_userid c.tg_userid ≡ false → Writes c)
        → P (new_client D t w r server c).0
    unfolding new_client
    new_client_world server c h = elim (Bool-cases (is_bad_tg_userid c.tg_userid)) [
      | inl bad ↦ ground arith
      | inr good ↦ ground (arith, with_keys_world (record c { id = r.guid }) (h good))
    ]

pub good_id_of_check : (c : Client) → is_bad_tg_userid c.tg_userid ≡ false → HasGoodId c
unfolding is_bad_tg_userid
good_id_of_check c h = λ given. elim (Option-cases (parse_int c.tg_userid)) [
  | inl n ↦ absurd (ground (arith, eq_iff c.tg_userid ""))
  | inr (u, e) ↦ λ none_again. ground arith
]

-- Whatever `NewClient` answers, the world is tracked if its one write succeeds.
pub new_client-IsTracked :
    {D : Driver Client} (laws : IsDriver D) (t : NetText) (w : World D) (r : Request)
    (server : Option (List String)) (c : Client)
    → IsTracked D w
    → ((f : Client) → (D.write w.dir f.id f).1 ≡ true)
    → IsTracked D (new_client D t w r server c).0
new_client-IsTracked {D} laws t w r server c h writes =
    new_client_world D t w r (IsTracked D) h server c
      λ good f same. save_client-IsTracked laws f w (good_id f good same) h (writes f)
  where
    good_id :
        (f : Client)
        → is_bad_tg_userid c.tg_userid ≡ false
        → f.tg_userid ≡ c.tg_userid
        → HasGoodId f
    good_id f good same = good_id_of_check f (rw same good)
