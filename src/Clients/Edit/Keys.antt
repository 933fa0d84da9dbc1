-- ===== src/Clients/Edit/Keys.antt =====
-- What `UpdateClient` does to the keys of a client.
use wireguard_ui.Prelude.{
  ℕ, String, ◌≡◌, ◌≢◌, refl, Bool, true, Option, some, List, eq_iff, eq_refl, arith,
}
use wireguard_ui.Text.{trim_newlines, replace_crlf}
use wireguard_ui.Store.{Driver, IsDriver}
use wireguard_ui.Session.Values.{json, lit}
use wireguard_ui.Net.Pool.{NetText}
use wireguard_ui.Clients.{Client, World, get_client_by_id, save_client}
use wireguard_ui.Clients.Create.{Request, answers}
use wireguard_ui.Clients.Edit.{
  mapped, write_update, check_preshared_key, check_public_key, check_addresses, refuse,
  update_client,
}

-- A client whose public key is replaced by another one.
abbrev pub KeepsKeys : Client → Client → Type 0
KeepsKeys c c' =
    (c'.public_key ≢ c.public_key → c'.public_key ≢ "" → c'.private_key ≡ "")
    × (c'.public_key ≡ c.public_key → c'.private_key ≡ c.private_key)

-- What the record after an update has of the one before and of the body: the id, the time of creation
-- and the subnet ranges are the old ones, the time of the update is the given one, the notes are
-- trimmed, and all else but the private key is the body's.
pub record IsUpdated (now : ℕ) (c b c' : Client) : Type 0 where
  pub id : c'.id ≡ c.id
  pub created_at : c'.created_at ≡ c.created_at
  pub subnet_ranges : c'.subnet_ranges ≡ c.subnet_ranges
  pub updated_at : c'.updated_at ≡ now
  pub name : c'.name ≡ b.name
  pub email : c'.email ≡ b.email
  pub tg_userid : c'.tg_userid ≡ b.tg_userid
  pub enabled : c'.enabled ≡ b.enabled
  pub use_server_dns : c'.use_server_dns ≡ b.use_server_dns
  pub allocated_ips : c'.allocated_ips ≡ b.allocated_ips
  pub allowed_ips : c'.allowed_ips ≡ b.allowed_ips
  pub extra_allowed_ips : c'.extra_allowed_ips ≡ b.extra_allowed_ips
  pub endpoint : c'.endpoint ≡ b.endpoint
  pub public_key : c'.public_key ≡ b.public_key
  pub preshared_key : c'.preshared_key ≡ b.preshared_key
  pub additional_notes : c'.additional_notes ≡ replace_crlf (trim_newlines b.additional_notes)

mapped-IsUpdated : (now : ℕ) (c b : Client) → IsUpdated now c b (mapped now c b)
unfolding mapped
mapped-IsUpdated now c b = record {
  id = refl;
  created_at = refl;
  subnet_ranges = refl;
  updated_at = refl;
  name = refl;
  email = refl;
  tg_userid = refl;
  enabled = refl;
  use_server_dns = refl;
  allocated_ips = refl;
  allowed_ips = refl;
  extra_allowed_ips = refl;
  endpoint = refl;
  public_key = refl;
  preshared_key = refl;
  additional_notes = refl;
}

KeepsKeys-mapped : (now : ℕ) (c b : Client) → KeepsKeys c (mapped now c b)
unfolding mapped
KeepsKeys-mapped now c b = (
  (λ ne given. ground (arith, eq_iff c.public_key b.public_key, eq_iff b.public_key "")),
  (λ same. ground (arith, eq_iff c.public_key b.public_key)),
)

read-save_client :
    {D : Driver Client} (laws : IsDriver D) (c : Client) (w : World D)
    → (save_client D c w).1 ≡ true
    → D.read (save_client D c w).0.dir c.id ≡ some c
unfolding save_client
read-save_client {D} laws c w saved =
    ground (arith, laws.read-write w.dir c.id c c.id, eq_refl c.id)

module _ {D : Driver Client} (laws : IsDriver D) (t : NetText) (is_id : String → Bool) where
  -- On a driver with the stated laws, when the server answers that a client, found under the body's
  -- id, is updated, the record stored under its id is the old one with the body's data mapped in:
  -- its id, time of creation and subnet ranges are the old ones, its time of update is the
  -- request's, its notes are the body's, trimmed, and all else but the private key is the body's.
  -- If its public key is another one and not empty, it has no private key; if its public key is the
  -- same, it has the private key of the old record.
  pub update_client_keys :
      (w : World D) (r : Request) (server : Option (List String)) (c b : Client)
      → get_client_by_id D w b.id ≡ some c
      → (update_client D t is_id w r server b).1
        ≡ answers (json 200 true (lit "Updated client successfully"))
      → (D.read (update_client D t is_id w r server b).0.dir c.id ≡ some (mapped r.now c b))
        × KeepsKeys c (mapped r.now c b)
        × IsUpdated r.now c b (mapped r.now c b)
  unfolding update_client check_addresses check_public_key check_preshared_key write_update refuse
  update_client_keys w r server c b found done = (
    ground (arith, read-save_client laws (mapped r.now c b) w, mapped_id r.now c b),
    KeepsKeys-mapped r.now c b,
    mapped-IsUpdated r.now c b,
  )
    where
      mapped_id : (now : ℕ) (c b : Client) → (mapped now c b).id ≡ c.id
      mapped_id now c b = unfold mapped in refl
