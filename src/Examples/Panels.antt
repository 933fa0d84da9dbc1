-- ===== src/Examples/Panels.antt =====
-- The server's records over a database with settings, an interface and a key pair.
use wireguard_ui.Prelude.{
  String, Bool, true, false, ◌≡◌, inr, refl, Option, none, some, List, [], ◌∷◌, All, ◌==◌,
  if◌then◌else◌, arith,
}
use wireguard_ui.Text.{trim_space, lowers_to}
use wireguard_ui.Store.Table.{table, table-IsDriver, lookup, remove}
use wireguard_ui.Session.Values.{pos, Reply}
use wireguard_ui.Users.{User, World, no_user, get_users, get_user_by_name, save_user}
use wireguard_ui.Users.Passkeys.Cleared.{IsKeyed, IsCleared}
use wireguard_ui.Server.{
  ServerInterface, ServerKeypair, GlobalSetting, ServerRecord, interfaces, keypair, global_settings,
  ServerDigest, no_settings, as_settings, get_global_settings, get_server, hashes_changed,
}
use wireguard_ui.Server.Settings.{
  Panel, or_none, validate_mtu, validate_ip_address_list, global_setting_submit,
}
use wireguard_ui.Server.Apply.{Disk, apply_records}
use wireguard_ui.Tunnel.Apply.Started.{IsRunning}
use wireguard_ui.Server.Applied.{IsComplete, config-apply_records}
use wireguard_ui.Server.Submit.{
  IsAccepted, IsSubmitted, global_setting_submit-IsSubmitted, global_setting_submit-IsCleared,
}
use wireguard_ui.Server.Sound.{IsSound}
use wireguard_ui.Server.Sound.Run.{
  ServerRequest, submits, sets_realtime, sets_interfaces, saves, applies, run, run-IsSound,
}
use wireguard_ui.Net.Pool.{validate_cidr_list}
use wireguard_ui.Tunnel.{Host, wg_conf_pending_path}
use wireguard_ui.Tunnel.Apply.{rendered}
use wireguard_ui.Examples.Sessions.{config, request}
use wireguard_ui.Examples.Accounts.{crypto, root_user}
use wireguard_ui.Examples.Addresses.{net_text}
use wireguard_ui.Examples.Interface.{
  programs, programs-IsWg, env, stopped, conf, tmp, sound, conf-IsPlaced, conf-IsUnitOf,
}

-- The text of an address that parses.
abbrev parse_ip : String → Option String
parse_ip s = if s == "1.1.1.1" then some s else none

abbrev settings : GlobalSetting
settings = record no_settings {
  endpoint_address = "vpn.example.org";
  dns_servers = "1.1.1.1" ∷ [];
  mtu = pos 1420;
  config_file_path = conf;
  persist_wg_conf_on_save = true;
  session_timeout_minutes = pos 30;
  totp_enabled = true;
  ui_theme = "dark";
}

abbrev iface : ServerInterface
iface = record {
  addresses = "10.0.0.1/30" ∷ [];
  listen_port = pos 51820;
  updated_at = 0;
  post_up = "";
  pre_down = "";
  post_down = "";
}

abbrev key_pair : ServerKeypair
key_pair = record { private_key = "private"; public_key = "public"; updated_at = 0 }

abbrev digest : ServerDigest
digest s i k = elim (as_settings s) [ none ↦ "" | some g ↦ g.endpoint_address ]

abbrev dir : List (String × ServerRecord)
dir =
    ("global_settings", global_settings settings)
    ∷ ("interfaces", interfaces iface)
    ∷ ("keypair", keypair key_pair)
    ∷ []

dir-IsSound : IsSound (table ServerRecord) net_text parse_ip dir
unfolding lookup validate_ip_address_list validate_mtu validate_cidr_list trim_space
dir-IsSound = record {
  settings = record {
    dns_parse = refl;
    mtu_fits = refl;
    themed = inr (inr refl);
    timed = omega arith;
    placed = refl;
  };
  addresses = refl;
}

abbrev eve : User
eve = record no_user { username = "eve"; passkeys = record { id = "a1"; sign_count = 4 } ∷ [] }

abbrev users : World (table User)
users = record { dir = ("eve", eve) ∷ ("root", root_user) ∷ []; crc = λ name. none }

-- A submission that switches passkeys off and sends no path.
abbrev body : GlobalSetting
body = record no_settings {
  endpoint_address = "new.example.org";
  dns_servers = "1.1.1.1" ∷ [];
  mtu = pos 1380;
  ui_theme = "Light";
}

abbrev disk : Disk (table ServerRecord)
disk = record {
  render = λ s g. rendered g.endpoint_address;
  others_read = true;
  pending_remove_fails = false;
  faults = sound;
  tmp = tmp;
}

abbrev history : List (ServerRequest (table ServerRecord) (table User) programs)
history =
    submits "clients" 7 body users request
    ∷ sets_interfaces 8 (record iface { addresses = "here" ∷ [] })
    ∷ sets_realtime "clients" 9 (some true) users request
    ∷ saves env disk "clients" true 10 none stopped
    ∷ applies env disk "clients" true stopped
    ∷ []

run-IsSound_example : IsSound (table ServerRecord) net_text parse_ip (
    run
      (table ServerRecord)
      (table User)
      programs
      crypto
      config
      digest
      net_text
      parse_ip
      dir
      history)
run-IsSound_example =
    run-IsSound (table-IsDriver ServerRecord) (table User) programs crypto config digest net_text
      parse_ip dir history dir-IsSound

dir-IsComplete :
    IsComplete
      (table ServerRecord)
      disk
      dir
      (record { iface = iface; key_pair = key_pair })
      settings
      "vpn.example.org"
unfolding get_server get_global_settings lookup
dir-IsComplete = record {
  stored_server = refl;
  stored_settings = refl;
  placed = conf-IsPlaced;
  given = refl;
  others = refl;
  renders = refl;
  removes = refl;
}

abbrev applied : (List (String × ServerRecord)) × Host programs × Bool
applied = apply_records (table ServerRecord) digest programs env disk "clients" true dir stopped

applied_done : applied.2 ≡ true
unfolding apply_records lookup trim_space wg_conf_pending_path
applied_done = refl

config-apply_records_example :
    IsRunning programs (some "vpn.example.org") applied.1.net
    × (get_server (table ServerRecord) applied.0
        ≡ some (record { iface = iface; key_pair = key_pair }))
    × (get_global_settings (table ServerRecord) applied.0 ≡ some settings)
    × (hashes_changed (table ServerRecord) digest "clients" applied.0 ≡ false)
config-apply_records_example =
    config-apply_records (table-IsDriver ServerRecord) digest programs programs-IsWg env refl disk
      "clients" dir stopped (record { iface = iface; key_pair = key_pair }) settings
      "vpn.example.org" dir-IsComplete (λ e. conf-IsUnitOf) applied_done

abbrev panel : Panel (table ServerRecord) (table User) crypto config digest parse_ip
panel = record { dir = dir; users = users; request = request }

abbrev submission : Panel (table ServerRecord) (table User) crypto config digest parse_ip × Reply
submission =
    global_setting_submit (table ServerRecord) (table User) crypto config digest parse_ip "clients"
      7 body panel

submission-IsAccepted : IsAccepted submission.1
unfolding global_setting_submit lookup trim_space lowers_to get_users save_user remove
submission-IsAccepted = inr refl

global_setting_submit-IsSubmitted_example :
    (s : GlobalSetting) × (get_global_settings (table ServerRecord) submission.0.dir ≡ some s)
    × IsSubmitted parse_ip (or_none (get_global_settings (table ServerRecord) dir)) body s
    × (hashes_changed (table ServerRecord) digest "clients" submission.0.dir ≡ false)
global_setting_submit-IsSubmitted_example =
    global_setting_submit-IsSubmitted (table-IsDriver ServerRecord) (table-IsDriver User) crypto
      config digest parse_ip "clients" 7 body panel submission-IsAccepted

users_read : get_users (table User) users ≡ some (eve ∷ root_user ∷ [])
unfolding get_users lookup
users_read = refl

users-IsKeyed : All (IsKeyed (table User) users) (eve ∷ root_user ∷ [])
unfolding get_user_by_name lookup
users-IsKeyed = (refl, (refl, tt))

switched_on : (or_none (get_global_settings (table ServerRecord) dir)).totp_enabled ≡ true
unfolding get_global_settings lookup
switched_on = refl

global_setting_submit-IsCleared_example :
    All (IsCleared (table User) submission.0.users) (eve ∷ root_user ∷ [])
global_setting_submit-IsCleared_example =
    global_setting_submit-IsCleared (table-IsDriver ServerRecord) (table-IsDriver User) crypto
      config digest parse_ip "clients" 7 body panel (eve ∷ root_user ∷ []) users_read users-IsKeyed
      switched_on refl submission-IsAccepted
