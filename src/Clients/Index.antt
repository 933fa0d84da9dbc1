-- ===== src/Clients/Index.antt =====
-- The map of Telegram users is an index of the stored clients.
use mathlib.Core.Path.{subst}
use mathlib.Core.Option.{some-injective}
use wireguard_ui.Prelude.{
  String, ◌≡◌, ◌≢◌, Bool, true, false, not, ◌&&◌, Option, none, some, ◌==◌, eq_iff, contains,
  Bool-cases, Option-cases, inl, inr, if◌then◌else◌, arith,
}
use wireguard_ui.Store.{Driver, IsDriver}
use wireguard_ui.Session.Values.{ℤ}
use wireguard_ui.Telegram.{parse_int, int_eq, clients_of}
use wireguard_ui.Telegram.Index.{
  IsMap, remove-IsMap, update-IsMap, remove_tg_to_client_id_lem, update_tg_to_client_id_lem,
}
use wireguard_ui.Clients.{Client, World, save_client, delete_client}

-- Whether a stored client asks to be served to a Telegram user.
abbrev pub is_served_to : Option Client → ℤ → Bool
is_served_to none v = false
is_served_to (some c) v =
    if c.enabled && not (c.tg_userid == "")
    then elim (parse_int c.tg_userid) [ none ↦ false | some userid ↦ int_eq userid v ]
    else false

-- The handlers accept no other Telegram user id.
abbrev pub HasGoodId : Client → Type 0
HasGoodId c = c.tg_userid ≢ "" → parse_int c.tg_userid ≢ none

module _ (D : Driver Client) where
  -- Each stored client that is enabled and names a user is listed with that user, and nothing else
  -- is listed.
  pub record IsIndex (w : World D) : Type 0 where
    pub is_map : IsMap w.tg
    pub at :
        (id : String) (v : ℤ) → contains (clients_of w.tg v) id ≡ is_served_to (D.read w.dir id) v

-- After a deletion the record is not stored, and every other one is as it was.
abbrev pub Deletes : (D : Driver Client) → D.Dir → String → Type 0
Deletes D d c = (j : String) → D.read (D.delete d c).0 j ≡ (if c == j then none else D.read d j)

module _ {D : Driver Client} (laws : IsDriver D) where
  save_client-at :
      (c : Client) (w : World D) (id : String) (v : ℤ)
      → HasGoodId c
      → IsIndex D w
      → (D.write w.dir c.id c).1 ≡ true
      → contains (clients_of (save_client D c w).0.tg v) id
        ≡ is_served_to (D.read (save_client D c w).0.dir id) v
  unfolding save_client
  save_client-at c w id v good h written = elim (Option-cases (parse_int c.tg_userid)) [
    | inl bad ↦ ground (
      arith,
      laws.read-write w.dir c.id c id written,
      h.at id v,
      remove_tg_to_client_id_lem c.id id w.tg v h.is_map,
      eq_iff c.id id,
      eq_iff id c.id,
      eq_iff c.tg_userid "",
    )
    | inr (u, e) ↦ ground (
      arith,
      laws.read-write w.dir c.id c id written,
      h.at id v,
      remove_tg_to_client_id_lem c.id id w.tg v h.is_map,
      update_tg_to_client_id_lem u c.id id w.tg v h.is_map,
      eq_iff c.id id,
      eq_iff id c.id,
    )
  ]

  save_client-IsMap : (c : Client) (w : World D) → IsMap w.tg → IsMap (save_client D c w).0.tg
  unfolding save_client
  save_client-IsMap c w h = elim (Option-cases (parse_int c.tg_userid)) [
    | inl bad ↦ ground (arith, remove-IsMap c.id w.tg h)
    | inr (u, e) ↦ ground (arith, remove-IsMap c.id w.tg h, update-IsMap u c.id w.tg h)
  ]

  -- A client with an empty or numeric Telegram user id whose record could be written leaves the map
  -- an index of the stored clients.
  pub save_client-IsIndex :
      (c : Client) (w : World D)
      → HasGoodId c
      → IsIndex D w
      → (D.write w.dir c.id c).1 ≡ true
      → IsIndex D (save_client D c w).0
  save_client-IsIndex c w good h written = record {
    is_map = save_client-IsMap c w h.is_map;
    at = λ id v. save_client-at c w id v good h written;
  }

  -- So it is where the deletion of a stored record succeeds.
  pub delete-Deletes :
      (d : D.Dir) (c : String) → (D.read d c ≢ none → (D.delete d c).1 ≡ true) → Deletes D d c
  delete-Deletes d c works j = elim (Bool-cases (D.delete d c).1) [
    | inl deleted ↦ laws.read-delete d c j deleted
    | inr failed ↦ elim (Option-cases (D.read d c)) [
      | inl absent ↦ ground (arith, laws.read-delete_failed d c j failed, eq_iff c j)
      | inr (v, e) ↦ absurd (ground (arith, works (λ n. ground arith)))
    ]
  ]

  delete_client-at :
      (c : String) (w : World D) (id : String) (v : ℤ)
      → IsIndex D w
      → Deletes D w.dir c
      → contains (clients_of (delete_client D c w).0.tg v) id
        ≡ is_served_to (D.read (delete_client D c w).0.dir id) v
  unfolding delete_client
  delete_client-at c w id v h deleted = ground (
    arith,
    deleted id,
    h.at id v,
    remove_tg_to_client_id_lem c id w.tg v h.is_map,
    eq_iff c id,
    eq_iff id c,
  )

  delete_client-IsMap : (c : String) (w : World D) → IsMap w.tg → IsMap (delete_client D c w).0.tg
  unfolding delete_client
  delete_client-IsMap c w h = remove-IsMap c w.tg h

  -- So does a deletion that the driver could make.
  pub delete_client-IsIndex :
      (c : String) (w : World D)
      → IsIndex D w
      → Deletes D w.dir c
      → IsIndex D (delete_client D c w).0
  delete_client-IsIndex c w h deleted = record {
    is_map = delete_client-IsMap c w h.is_map;
    at = λ id v. delete_client-at c w id v h deleted;
  }

-- Moreover every stored client has an empty or numeric Telegram user id.
pub record IsTracked (D : Driver Client) (w : World D) : Type 0 where
  pub index : IsIndex D w
  pub good : (id : String) (c : Client) → D.read w.dir id ≡ some c → HasGoodId c

module _ {D : Driver Client} (laws : IsDriver D) where
  save_client-good :
      (c : Client) (w : World D) (id : String) (d : Client)
      → HasGoodId c
      → IsTracked D w
      → (D.write w.dir c.id c).1 ≡ true
      → D.read (save_client D c w).0.dir id ≡ some d
      → HasGoodId d
  unfolding save_client
  save_client-good c w id d good h written e = elim (Bool-cases (c.id == id)) [
    | inl same ↦
        let this : some c ≡ some d = ground (arith, laws.read-write w.dir c.id c id written) in
        subst HasGoodId (some-injective _ _ this) good
    | inr other ↦ h.good id d (ground (arith, laws.read-write w.dir c.id c id written))
  ]

  pub save_client-IsTracked :
      (c : Client) (w : World D)
      → HasGoodId c
      → IsTracked D w
      → (D.write w.dir c.id c).1 ≡ true
      → IsTracked D (save_client D c w).0
  save_client-IsTracked c w good h written = record {
    index = save_client-IsIndex laws c w good h.index written;
    good = λ id d e. save_client-good c w id d good h written e;
  }

  delete_client-good :
      (id : String) (w : World D) (j : String) (d : Client)
      → IsTracked D w
      → Deletes D w.dir id
      → D.read (delete_client D id w).0.dir j ≡ some d
      → HasGoodId d
  unfolding delete_client
  delete_client-good id w j d h deleted e = h.good j d (ground (arith, deleted j))

  pub delete_client-IsTracked :
      (id : String) (w : World D)
      → IsTracked D w
      → Deletes D w.dir id
      → IsTracked D (delete_client D id w).0
  delete_client-IsTracked id w h deleted = record {
    index = delete_client-IsIndex laws id w h.index deleted;
    good = λ j d e. delete_client-good id w j d h deleted e;
  }
