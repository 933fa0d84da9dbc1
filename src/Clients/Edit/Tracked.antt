-- ===== src/Clients/Edit/Tracked.antt =====
-- The handlers keep the map of Telegram users an index of the stored clients.
use wireguard_ui.Prelude.{
  ℕ, String, ◌≡◌, ◌≢◌, Bool, true, false, Option, none, some, List, [], ◌∷◌, Bool-cases,
  Option-cases, inl, inr, arith,
}
use wireguard_ui.Text.{trim_space}
use wireguard_ui.Store.{Driver, IsDriver}
use wireguard_ui.Net.Pool.{NetText}
use wireguard_ui.Clients.{Client, World, get_client_by_id, save_client}
use wireguard_ui.Clients.Index.{
  HasGoodId, IsTracked, save_client-IsTracked, delete_client-IsTracked, delete-Deletes,
}
use wireguard_ui.Clients.Create.{Request, ClientReply, is_bad_tg_userid, new_client}
use wireguard_ui.Clients.Create.Fresh.{good_id_of_check, new_client-IsTracked}
use wireguard_ui.Clients.Edit.{
  refuse, write_update, check_preshared_key, check_public_key, check_addresses, mapped,
  update_client, set_client_status, remove_client,
}

-- A request's route and body; the addresses are those that `GetServer` reads, or `none` for an error.
pub data ClientRequest : Type 0 where
  creates updates : Request → Option (List String) → Client → ClientRequest
  sets_status : Option (String × Bool) → ClientRequest
  removes : String → ClientRequest

module _ (D : Driver Client) (t : NetText) (is_id : String → Bool) where
  unfoldable pub serve : World D → ClientRequest → World D × ClientReply
  serve w (creates r server c) = new_client D t w r server c
  serve w (updates r server b) = update_client D t is_id w r server b
  serve w (sets_status b) = set_client_status D t is_id w b
  serve w (removes id) = remove_client D t is_id w id

  unfoldable pub run : World D → List ClientRequest → World D
  unfolding serve
  run w [] = w
  run w (q ∷ qs) = run (serve w q).0 qs

-- The driver's writes succeed, and so do its deletions of stored records.
pub record Works (D : Driver Client) : Type 0 where
  pub writes : (d : D.Dir) (id : String) (c : Client) → (D.write d id c).1 ≡ true
  pub deletes : (d : D.Dir) (id : String) → D.read d id ≢ none → (D.delete d id).1 ≡ true

module _ {D : Driver Client} (laws : IsDriver D) (works : Works D) (t : NetText)
    (is_id : String → Bool) where
  saved :
      (c : Client) (w : World D) → HasGoodId c → IsTracked D w → IsTracked D (save_client D c w).0
  saved c w good h = save_client-IsTracked laws c w good h (works.writes w.dir c.id c)

  mapped_good :
      (now : ℕ) (c b : Client) → is_bad_tg_userid b.tg_userid ≡ false → HasGoodId (mapped now c b)
  unfolding mapped
  mapped_good now c b h = good_id_of_check b h

  module _ (w : World D) (r : Request) (c b : Client) (h : IsTracked D w)
      (after : IsTracked D (save_client D (mapped r.now c b) w).0) where
    check_preshared_key-IsTracked : IsTracked D (check_preshared_key D t is_id w r c b).0
    unfolding check_preshared_key write_update refuse
    check_preshared_key-IsTracked = ground arith

    check_public_key-IsTracked : IsTracked D (check_public_key D t is_id w r c b).0
    unfolding check_public_key refuse
    check_public_key-IsTracked = ground (arith, check_preshared_key-IsTracked)

    check_addresses-IsTracked :
        (addresses : List String) → IsTracked D (check_addresses D t is_id w r addresses c b).0
    unfolding check_addresses refuse
    check_addresses-IsTracked addresses = ground (arith, check_public_key-IsTracked)

  update_client-IsTracked :
      (w : World D) (r : Request) (server : Option (List String)) (b : Client)
      → IsTracked D w
      → IsTracked D (update_client D t is_id w r server b).0
  unfolding update_client refuse
  update_client-IsTracked w r server b h = elim (Option-cases (get_client_by_id D w b.id)) [
    | inl n ↦ ground arith
    | inr (c, e) ↦ elim (Bool-cases (is_bad_tg_userid b.tg_userid)) [
      | inl bad ↦ ground arith
      | inr good ↦
          let after = saved (mapped r.now c b) w (mapped_good r.now c b good) h in
          elim (Option-cases server) [
            | inl n ↦ ground arith
            | inr (addresses, s) ↦
                ground (arith, check_addresses-IsTracked w r c b h after addresses)
          ]
    ]
  ]

  set_client_status-IsTracked :
      (w : World D) (b : Option (String × Bool))
      → IsTracked D w
      → IsTracked D (set_client_status D t is_id w b).0
  unfolding set_client_status get_client_by_id
  set_client_status-IsTracked w none h = h
  set_client_status-IsTracked w (some (id, status)) h =
      elim (Option-cases (D.read w.dir (trim_space id))) [
        | inl n ↦ ground arith
        | inr (c, e) ↦
            let after = saved (record c { enabled = status }) w (h.good (trim_space id) c e) h in
            ground arith
      ]

  remove_client-IsTracked :
      (w : World D) (id : String) → IsTracked D w → IsTracked D (remove_client D t is_id w id).0
  unfolding remove_client
  remove_client-IsTracked w id h =
      let deleted = delete-Deletes laws w.dir id (works.deletes w.dir id) in
      let after = delete_client-IsTracked laws id w h deleted in ground arith

  serve-IsTracked :
      (w : World D) (q : ClientRequest) → IsTracked D w → IsTracked D (serve D t is_id w q).0
  unfolding serve
  serve-IsTracked w (creates r server c) h =
      new_client-IsTracked laws t w r server c h (λ f. works.writes w.dir f.id f)
  serve-IsTracked w (updates r server b) h = update_client-IsTracked w r server b h
  serve-IsTracked w (sets_status b) h = set_client_status-IsTracked w b h
  serve-IsTracked w (removes id) h = remove_client-IsTracked w id h

  -- Over any history of requests that create, update, enable, disable and remove clients, on a
  -- driver with the stated laws whose writes, and deletions of stored records, succeed, the map of
  -- Telegram users stays an index of the stored clients: a client is listed with a user exactly if
  -- it is stored, enabled and names that user.
  pub run-IsTracked :
      (w : World D) (qs : List ClientRequest) → IsTracked D w → IsTracked D (run D t is_id w qs)
  unfolding run
  run-IsTracked w [] h = h
  run-IsTracked w (q ∷ qs) h = run-IsTracked (serve D t is_id w q).0 qs (serve-IsTracked w q h)
