-- ===== src/Clients.antt =====
-- The clients: model/client.go and the client methods of store/jsondb/jsondb.go, with the map of
-- Telegram users that they keep. QR codes are left out. A time is a count of seconds.
pub mod Index
pub mod Create
pub mod Edit
pub mod Config
use wireguard_ui.Prelude.{
  ℕ, String, Bool, true, false, not, ◌&&◌, Option, none, some, List, [], ◌∷◌, ◌==◌, if◌then◌else◌,
}
use wireguard_ui.Store.{Driver}
use wireguard_ui.Telegram.{TgMap, parse_int, update_tg_to_client_id, remove_tg_to_client_id}

pub record Client : Type 0 where
  pub id : String
  pub private_key : String
  pub public_key : String
  pub preshared_key : String
  pub name : String
  pub tg_userid : String
  pub email : String
  pub subnet_ranges : List String
  pub allocated_ips : List String
  pub allowed_ips : List String
  pub extra_allowed_ips : List String
  pub endpoint : String
  pub additional_notes : String
  pub use_server_dns : Bool
  pub enabled : Bool
  pub created_at : ℕ
  pub updated_at : ℕ

-- The collection `clients` and the map `TgUseridToClientID`.
pub record World (D : Driver Client) : Type 0 where
  pub dir : D.Dir
  pub tg : TgMap

module _ (D : Driver Client) where
  decode_clients : List (Option Client) → Option (List Client)
  decode_clients [] = some []
  decode_clients (none ∷ rs) = none
  decode_clients (some c ∷ rs) = elim (decode_clients rs) [ none ↦ none | some cs ↦ some (c ∷ cs) ]

  -- `GetClients(false)`
  unfoldable pub get_clients : World D → Option (List Client)
  unfolding decode_clients
  get_clients w = elim (D.read_all w.dir) [ none ↦ none | some rs ↦ decode_clients rs ]

  -- `GetClientByID` with QR codes disabled
  unfoldable pub get_client_by_id : World D → String → Option Client
  get_client_by_id w id = D.read w.dir id

  -- What `SaveClient` does to the map after a write that succeeds.
  unfoldable pub track : Client → TgMap → TgMap
  track c tg =
      if c.enabled && not (c.tg_userid == "")
      then elim (parse_int c.tg_userid) [
        | none ↦ tg
        | some userid ↦ update_tg_to_client_id userid c.id tg
      ]
      else remove_tg_to_client_id c.id tg

  unfoldable pub save_client : Client → World D → World D × Bool
  unfolding track
  save_client c w =
      let (dir, written) = D.write w.dir c.id c in
      let w' : World D = record {
        dir = dir;
        tg = if written then track c w.tg else remove_tg_to_client_id c.id w.tg;
      } in
      (w', if D.chmod dir c.id then written else false)

  unfoldable pub delete_client : String → World D → World D × Bool
  delete_client id w =
      let (dir, deleted) = D.delete w.dir id in
      (record { dir = dir; tg = remove_tg_to_client_id id w.tg }, deleted)
