-- ===== src/Clients/Edit.antt =====
-- `UpdateClient`, `SetClientStatus` and `RemoveClient` of handler/routes.go. Log lines and the push
-- notifications after an answer is decided are left out; `is_id` is the check of `xid.FromString`.
pub mod Keys
pub mod Tracked
use wireguard_ui.Prelude.{
  ℕ, String, Bool, true, false, not, ◌&&◌, Option, none, some, List, ◌==◌, if◌then◌else◌,
}
use wireguard_ui.Text.{trim_space, trim_newlines, replace_crlf}
use wireguard_ui.Store.{Driver}
use wireguard_ui.Session.Values.{Reply, json, lit, failure}
use wireguard_ui.Net.Pool.{
  NetText, Check, valid, panics, validate_cidr_list, validate_ip_allocation,
}
use wireguard_ui.Clients.{Client, World, get_clients, get_client_by_id, save_client, delete_client}
use wireguard_ui.Clients.Create.{
  Request, ClientReply, answers, crashes, is_bad_tg_userid, allocated_but, has_public_key,
}

-- `client.PublicKey != _client.PublicKey && _client.PublicKey != ""`
abbrev pub is_replaced : String → String → Bool
is_replaced old new = not (old == new) && not (new == "")

-- The private key that stays: none where a public key is replaced.
unfoldable pub kept_private_key : Client → Client → String
kept_private_key c b = if is_replaced c.public_key b.public_key then "" else c.private_key

-- `map new data`
unfoldable pub mapped : ℕ → Client → Client → Client
unfolding kept_private_key
mapped now c b = record c {
  private_key = kept_private_key c b;
  name = b.name;
  email = b.email;
  tg_userid = b.tg_userid;
  enabled = b.enabled;
  use_server_dns = b.use_server_dns;
  allocated_ips = b.allocated_ips;
  allowed_ips = b.allowed_ips;
  extra_allowed_ips = b.extra_allowed_ips;
  endpoint = b.endpoint;
  public_key = b.public_key;
  preshared_key = b.preshared_key;
  updated_at = now;
  additional_notes = replace_crlf (trim_newlines b.additional_notes);
}

module _ (D : Driver Client) (t : NetText) (is_id : String → Bool) where
  abbrev pub Outcome : Type 0
  Outcome = World D × ClientReply

  unfoldable pub refuse : World D → ℕ → String → Outcome
  refuse w status text = (w, answers (json status false (lit text)))

  unfoldable pub write_update : World D → Request → Client → Client → Outcome
  write_update w r c b =
      let (w', saved) = save_client D (mapped r.now c b) w in
      if saved
      then (w', answers (json 200 true (lit "Updated client successfully")))
      else (w', answers (json 500 false failure))

  unfoldable pub check_preshared_key : World D → Request → Client → Client → Outcome
  check_preshared_key w r c b =
      if is_replaced c.preshared_key b.preshared_key && not (r.parse_key b.preshared_key)
      then refuse w 500 "Cannot verify provided Wireguard preshared key"
      else write_update w r c b

  unfoldable pub check_public_key : World D → Request → Client → Client → Outcome
  check_public_key w r c b =
      if not (is_replaced c.public_key b.public_key)
      then check_preshared_key w r c b
      else if not (r.parse_key b.public_key)
      then refuse w 500 "Cannot verify provided Wireguard public key"
      else elim (get_clients D w) [
        | none ↦ refuse w 500 "Cannot get client list for duplicate public key check"
        | some cs ↦
            if has_public_key cs b.public_key
            then refuse w 500 "Duplicate Public Key"
            else check_preshared_key w r c b
      ]

  unfoldable pub check_addresses : World D → Request → List String → Client → Client → Outcome
  check_addresses w r addresses c b =
      elim (validate_ip_allocation t addresses (allocated_but D t c.id (some addresses) w)
        b.allocated_ips) [
          | panics ↦ (w, crashes)
          | valid ↦
              if not (validate_cidr_list t b.allowed_ips false)
              then refuse w 400 "Allowed IPs must be in CIDR format"
              else if not (validate_cidr_list t b.extra_allowed_ips true)
              then refuse w 400 "Extra Allowed IPs must be in CIDR format"
              else check_public_key w r c b
          | _ ↦ (w, answers (json 400 false failure))
        ]

  unfoldable pub update_client : World D → Request → Option (List String) → Client → Outcome
  update_client w r server b =
      if not (is_id b.id)
      then refuse w 400 "Please provide a valid client ID"
      else elim (get_client_by_id D w b.id) [
        | none ↦ refuse w 404 "Client not found"
        | some c ↦
            if is_bad_tg_userid b.tg_userid
            then refuse w 400 "Telegram userid must be a non-zero number"
            else elim server [
              | none ↦ (w, answers (json 400 false failure))
              | some addresses ↦ check_addresses w r addresses c b
            ]
      ]

  -- The body is an id and the wanted status, or `none` where it does not decode.
  unfoldable pub set_client_status : World D → Option (String × Bool) → Outcome
  unfolding refuse
  set_client_status w none = refuse w 400 "Bad post data"
  set_client_status w (some (id, status)) =
      let client_id = trim_space id in
      if client_id == ""
      then refuse w 400 "Please provide a valid client ID"
      else if not (is_id client_id)
      then refuse w 400 "Please provide a valid client ID"
      else elim (get_client_by_id D w client_id) [
        | none ↦ (w, answers (json 404 false failure))
        | some c ↦
            let (w', saved) = save_client D (record c { enabled = status }) w in
            if saved
            then (w', answers (json 200 true (lit "Changed client status successfully")))
            else (w', answers (json 500 false failure))
      ]

  unfoldable pub remove_client : World D → String → Outcome
  unfolding refuse
  remove_client w id =
      if not (is_id id)
      then refuse w 400 "Please provide a valid client ID"
      else (let (w', deleted) = delete_client D id w in
          if deleted
          then (w', answers (json 200 true (lit "Client removed")))
          else (w', answers (json 500 false (lit "Cannot delete client from database"))))
