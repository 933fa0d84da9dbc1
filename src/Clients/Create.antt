-- ===== src/Clients/Create.antt =====
-- `NewClient` of handler/routes.go. The request's body is the client that `c.Bind` fills, as far as
-- it goes. Log lines and the push notification after the answer is decided are left out.
pub mod Fresh
use wireguard_ui.Prelude.{
  ℕ, String, Bool, true, false, not, ◌&&◌, ◌||◌, Option, none, some, List, [], ◌∷◌, ◌==◌,
  if◌then◌else◌,
}
use wireguard_ui.Store.{Driver}
use wireguard_ui.Session.Values.{ℤ, pos, negsuc, Reply, json, lit, failure}
use wireguard_ui.Telegram.{parse_int, int_eq}
use wireguard_ui.Net.Pool.{
  NetText, Check, valid, panics, get_allocated_ips, validate_cidr_list, validate_ip_allocation,
}
use wireguard_ui.Clients.{Client, World, get_clients, save_client}

-- The keys of `wgtypes`: the check of `ParseKey`, and for one request what the random generators
-- give, or `none` for an error; and the id of `xid.New` and the time.
pub record Request : Type 0 where
  pub parse_key : String → Bool
  pub key_pair : Option (String × String)
  pub preshared_key : Option String
  pub guid : String
  pub now : ℕ

-- A JSON answer, the stored client, or a nil dereference.
pub data ClientReply : Type 0 where
  answers : Reply → ClientReply
  stored : Client → ClientReply
  crashes : ClientReply

-- `TgUserid != ""` and it is no number, or zero.
unfoldable pub is_bad_tg_userid : String → Bool
is_bad_tg_userid s =
    if s == "" then false else elim (parse_int s) [ none ↦ true | some n ↦ int_eq n (pos 0) ]

-- The records of `GetAllocatedIPs`.
abbrev pub allocation_of : Option Client → Option (String × List String)
allocation_of none = none
allocation_of (some c) = some (c.id, c.allocated_ips)

abbrev pub allocations :
    Option (List (Option Client)) → Option (List (Option (String × List String)))
allocations none = none
allocations (some rs) = some (wireguard_ui.Prelude.map allocation_of rs)

-- An error of `GetAllocatedIPs` is overwritten by the next call's, and its list is then empty.
abbrev pub or_nothing : Option (List String) → List String
or_nothing none = []
or_nothing (some l) = l

unfoldable pub has_public_key : List Client → String → Bool
has_public_key [] key = false
has_public_key (c ∷ cs) key = if c.public_key == key then true else has_public_key cs key

module _ (D : Driver Client) (t : NetText) where
  unfoldable pub allocated_but : String → Option (List String) → World D → List String
  allocated_but ignored addresses w =
      or_nothing (get_allocated_ips t ignored addresses (allocations (D.read_all w.dir)))

  abbrev pub Outcome : Type 0
  Outcome = World D × ClientReply

  error : World D → String → Outcome
  error w text = (w, answers (json 500 false (lit text)))

  -- The preshared key, the dates and the write.
  finish : World D → Request → Client → Outcome
  finish w r c =
      let (w', saved) = save_client D c w in
      if saved then (w', stored c) else (w', answers (json 500 false failure))

  with_preshared_key : World D → Request → Client → Outcome
  unfolding finish error
  with_preshared_key w r c =
      let dated = record c { created_at = r.now; updated_at = r.now } in
      if c.preshared_key == ""
      then elim r.preshared_key [
        | none ↦ error w "Cannot generate Wireguard preshared key"
        | some key ↦ finish w r (record dated { preshared_key = key })
      ]
      else if c.preshared_key == "-"
      then finish w r (record dated { preshared_key = "" })
      else if r.parse_key c.preshared_key
      then finish w r dated
      else error w "Cannot verify Wireguard preshared key"

  with_keys : World D → Request → Client → Outcome
  unfolding with_preshared_key
  with_keys w r c =
      if c.public_key == ""
      then elim r.key_pair [
        | none ↦ error w "Cannot generate Wireguard key pair"
        | some (private, public) ↦
            with_preshared_key w r (record c { private_key = private; public_key = public })
      ]
      else if not (r.parse_key c.public_key)
      then error w "Cannot verify Wireguard public key"
      else elim (get_clients D w) [
        | none ↦ error w "Cannot get clients for duplicate check"
        | some cs ↦
            if has_public_key cs c.public_key
            then error w "Duplicate Public Key"
            else with_preshared_key w r c
      ]

  -- The checks on addresses; `addresses` are those of the server that `GetServer` reads.
  with_addresses : World D → Request → List String → Client → Outcome
  unfolding with_keys
  with_addresses w r addresses c =
      elim (validate_ip_allocation t addresses (allocated_but "" (some addresses) w)
        c.allocated_ips) [
          | panics ↦ (w, crashes)
          | valid ↦
              if not (validate_cidr_list t c.allowed_ips false)
              then (w, answers (json 400 false (lit "Allowed IPs must be in CIDR format")))
              else if not (validate_cidr_list t c.extra_allowed_ips true)
              then (w, answers (json 400 false (lit "Extra AllowedIPs must be in CIDR format")))
              else with_keys w r (record c { id = r.guid })
          | _ ↦ (w, answers (json 400 false failure))
        ]

  unfoldable pub new_client : World D → Request → Option (List String) → Client → Outcome
  unfolding with_addresses
  new_client w r server c =
      if is_bad_tg_userid c.tg_userid
      then (w, answers (json 400 false (lit "Telegram userid must be a non-zero number")))
      else elim server [
        | none ↦ (w, answers (json 500 false failure))
        | some addresses ↦ with_addresses w r addresses c
      ]
