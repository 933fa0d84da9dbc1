-- ===== src/Examples/Peers.antt =====
-- Requests on clients over a database of one client.
use wireguard_ui.Net
use wireguard_ui.Prelude.{
  String, ◌≡◌, refl, Bool, true, false, some, [], ◌∷◌, ◌==◌, All, arith, map,
}
use wireguard_ui.Session.Values.{pos, json, lit}
use wireguard_ui.Store.Table.{table, table-IsDriver, lookup}
use wireguard_ui.Telegram.{clients_of, parse_int}
use wireguard_ui.Clients.{Client, World, get_clients, get_client_by_id, save_client}
use wireguard_ui.Clients.Index.{IsTracked}
use wireguard_ui.Clients.Create.{
  Request, answers, stored, allocation_of, allocations, has_public_key, new_client, allocated_but,
  is_bad_tg_userid,
}
use wireguard_ui.Clients.Create.Fresh.{new_client_fresh}
use wireguard_ui.Clients.Edit.{
  mapped, check_addresses, check_public_key, check_preshared_key, write_update, update_client,
}
use wireguard_ui.Clients.Edit.Keys.{KeepsKeys, IsUpdated, update_client_keys}
use wireguard_ui.Clients.Edit.Tracked.{creates, sets_status, removes, run, Works, run-IsTracked}
use wireguard_ui.Net.Pool.{get_allocated_ips, validate_cidr_list, validate_ip_allocation}
use wireguard_ui.Net.Pool.Allocation.{Differs, DiffersFromOthers}
use wireguard_ui.Examples.Addresses.{net_text, server}

abbrev client : Client
client = record {
  id = "";
  private_key = "";
  public_key = "k2";
  preshared_key = "-";
  name = "phone";
  tg_userid = "5";
  email = "";
  subnet_ranges = [];
  allocated_ips = "10.0.0.2/32" ∷ [];
  allowed_ips = "10.0.0.1/30" ∷ [];
  extra_allowed_ips = [];
  endpoint = "";
  additional_notes = "";
  use_server_dns = true;
  enabled = true;
  created_at = 0;
  updated_at = 0;
}

abbrev request : Request
request = record {
  parse_key = λ s. true;
  key_pair = some ("private", "public");
  preshared_key = some "shared";
  guid = "c1";
  now = 9;
}

abbrev is_id : String → Bool
is_id s = s == "c1"

abbrev empty : World (table Client)
empty = record { dir = []; tg = [] }

abbrev made : Client
made = record client { id = "c1"; preshared_key = ""; created_at = 9; updated_at = 9 }

new_client_answer :
    (new_client (table Client) net_text empty request (some server) client).1 ≡ stored made
unfolding new_client is_bad_tg_userid parse_int validate_ip_allocation allocated_but
    get_allocated_ips Net.contains validate_cidr_list get_clients has_public_key save_client
new_client_answer = refl

server_read :
    get_allocated_ips net_text "" (some server) (allocations (some [])) ≡ some ("10.0.0.1" ∷ [])
unfolding get_allocated_ips
server_read = refl

new_client_fresh_example :
    All
      (λ cidr.
        All (Differs net_text cidr) server
        × All (DiffersFromOthers net_text "" cidr) (map allocation_of []))
      made.allocated_ips
new_client_fresh_example =
    new_client_fresh (table Client) net_text empty request server ("10.0.0.1" ∷ []) [] client made
      refl server_read new_client_answer

abbrev peopled : World (table Client)
peopled = record { dir = ("c1", made) ∷ []; tg = (pos 5, "c1" ∷ []) ∷ [] }

abbrev body : Client
body = record made { public_key = "k3"; tg_userid = "" }

found_made : get_client_by_id (table Client) peopled "c1" ≡ some made
unfolding get_client_by_id lookup
found_made = refl

update_client_answer :
    (update_client (table Client) net_text is_id peopled request (some server) body).1
    ≡ answers (json 200 true (lit "Updated client successfully"))
unfolding update_client get_client_by_id lookup is_bad_tg_userid check_addresses
    validate_ip_allocation allocated_but get_allocated_ips Net.contains validate_cidr_list
    check_public_key get_clients has_public_key check_preshared_key write_update save_client
update_client_answer = refl

update_client_keys_example :
    ((table Client).read
        (update_client (table Client) net_text is_id peopled request (some server) body).0.dir
        "c1"
      ≡ some (mapped 9 made body))
    × KeepsKeys made (mapped 9 made body)
    × IsUpdated 9 made body (mapped 9 made body)
update_client_keys_example =
    update_client_keys (table-IsDriver Client) net_text is_id peopled request (some server) made
      body found_made update_client_answer

table-Works : Works (table Client)
table-Works = record { writes = λ d id c. refl; deletes = λ d id stored. refl }

empty-IsTracked : IsTracked (table Client) empty
unfolding lookup clients_of
empty-IsTracked = record {
  index = record { is_map = tt; at = λ id v. refl };
  good = λ id c e. absurd (ground arith);
}

run-IsTracked_example : IsTracked (table Client) (
    run
      (table Client)
      net_text
      is_id
      empty
      (creates request (some server) client ∷ sets_status (some ("c1", false)) ∷ removes "c1" ∷ []))
run-IsTracked_example =
    run-IsTracked (table-IsDriver Client) table-Works net_text is_id empty
      (creates request (some server) client ∷ sets_status (some ("c1", false)) ∷ removes "c1" ∷ [])
      empty-IsTracked
