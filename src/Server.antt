-- ===== src/Server.antt =====
-- The records of the server: model/server.go, model/setting.go, `ClientServerHashes` of model/misc.go,
-- their methods in store/jsondb/jsondb.go and the hashes of util/util.go. They stand in one collection
-- `server`. The hash of the directory of clients is given, as the server's records do not change it.
pub mod Settings
pub mod Handlers
pub mod Apply
pub mod Sound
pub mod Hashes
pub mod Applied
pub mod Submit
use wireguard_ui.Prelude.{
  ℕ, String, Bool, true, false, not, Option, none, some, List, [], ◌==◌, if◌then◌else◌,
}
use wireguard_ui.Store.{Driver}
use wireguard_ui.Session.Values.{ℤ, pos}

pub record ServerInterface : Type 0 where
  pub addresses : List String
  pub listen_port : ℤ
  pub updated_at : ℕ
  pub post_up : String
  pub pre_down : String
  pub post_down : String

pub record ServerKeypair : Type 0 where
  pub private_key : String
  pub public_key : String
  pub updated_at : ℕ

pub record GlobalSetting : Type 0 where
  pub endpoint_address : String
  pub dns_servers : List String
  pub mtu : ℤ
  pub persistent_keepalive : ℤ
  pub firewall_mark : String
  pub table : String
  pub config_file_path : String
  pub ip_forward_desired : Bool
  pub global_dns_override : Bool
  pub persist_wg_conf_on_save : Bool
  pub auto_apply_wg_on_save : Bool
  pub alert_email_on_peer_disconnect : Bool
  pub log_retention_days : ℤ
  pub webhook_alerts_enabled : Bool
  pub webhook_url : String
  pub session_timeout_minutes : ℤ
  pub totp_enabled : Bool
  pub ui_language : String
  pub ui_theme : String
  pub realtime_stats_enabled : Bool
  pub updated_at : ℕ

pub record ClientServerHashes : Type 0 where
  pub client : String
  pub server : String

-- The zero values that a failed read leaves.
abbrev pub no_settings : GlobalSetting
no_settings = record {
  endpoint_address = "";
  dns_servers = [];
  mtu = pos 0;
  persistent_keepalive = pos 0;
  firewall_mark = "";
  table = "";
  config_file_path = "";
  ip_forward_desired = false;
  global_dns_override = false;
  persist_wg_conf_on_save = false;
  auto_apply_wg_on_save = false;
  alert_email_on_peer_disconnect = false;
  log_retention_days = pos 0;
  webhook_alerts_enabled = false;
  webhook_url = "";
  session_timeout_minutes = pos 0;
  totp_enabled = false;
  ui_language = "";
  ui_theme = "";
  realtime_stats_enabled = false;
  updated_at = 0;
}

abbrev pub no_hashes : ClientServerHashes
no_hashes = record { client = ""; server = "" }

-- A file of the collection, by what was written to it.
pub data ServerRecord : Type 0 where
  interfaces : ServerInterface → ServerRecord
  keypair : ServerKeypair → ServerRecord
  global_settings : GlobalSetting → ServerRecord
  hashes : ClientServerHashes → ServerRecord

-- A file that holds a record of another type does not decode.
abbrev pub as_interface : Option ServerRecord → Option ServerInterface
as_interface (some (interfaces i)) = some i
as_interface _ = none

abbrev pub as_keypair : Option ServerRecord → Option ServerKeypair
as_keypair (some (keypair k)) = some k
as_keypair _ = none

abbrev pub as_settings : Option ServerRecord → Option GlobalSetting
as_settings (some (global_settings s)) = some s
as_settings _ = none

abbrev pub as_hashes : Option ServerRecord → Option ClientServerHashes
as_hashes (some (hashes h)) = some h
as_hashes _ = none

-- `dirhash.Hash1` over the three files, by their contents; a file that is not there is `none`.
abbrev pub ServerDigest : Type 0
ServerDigest = Option ServerRecord → Option ServerRecord → Option ServerRecord → String

module _ (D : Driver ServerRecord) where
  unfoldable pub get_global_settings : D.Dir → Option GlobalSetting
  get_global_settings d = as_settings (D.read d "global_settings")

  -- `GetServer`
  pub record Server : Type 0 where
    pub iface : ServerInterface
    pub key_pair : ServerKeypair

  unfoldable pub get_server : D.Dir → Option Server
  get_server d = elim (as_interface (D.read d "interfaces")) [
    | none ↦ none
    | some i ↦ elim (as_keypair (D.read d "keypair")) [
      | none ↦ none
      | some k ↦ some (record { iface = i; key_pair = k })
    ]
  ]

  -- The four methods `Save…`: a failed change of the file's mode is an error too.
  unfoldable pub save_record : String → ServerRecord → D.Dir → D.Dir × Bool
  save_record name r d =
      let (d', written) = D.write d name r in (d', if D.chmod d' name then written else false)

  abbrev pub save_server_interface : ServerInterface → D.Dir → D.Dir × Bool
  save_server_interface i = save_record "interfaces" (interfaces i)

  abbrev pub save_server_key_pair : ServerKeypair → D.Dir → D.Dir × Bool
  save_server_key_pair k = save_record "keypair" (keypair k)

  abbrev pub save_global_settings : GlobalSetting → D.Dir → D.Dir × Bool
  save_global_settings s = save_record "global_settings" (global_settings s)

  abbrev pub save_hashes : ClientServerHashes → D.Dir → D.Dir × Bool
  save_hashes h = save_record "hashes" (hashes h)

  module _ (digest : ServerDigest) where
    -- `GetCurrentHash`, given the hash of the directory of clients.
    unfoldable pub get_current_hash : String → D.Dir → ClientServerHashes
    get_current_hash clients d = record {
      client = clients;
      server = digest (D.read d "global_settings") (D.read d "interfaces") (D.read d "keypair");
    }

    unfoldable pub hashes_changed : String → D.Dir → Bool
    unfolding get_current_hash
    hashes_changed clients d =
        let old : ClientServerHashes = elim (as_hashes (D.read d "hashes")) [
          | none ↦ no_hashes
          | some h ↦ h
        ] in
        let new = get_current_hash clients d in
        if not (old.client == new.client) then true else not (old.server == new.server)

    unfoldable pub update_hashes : String → D.Dir → D.Dir × Bool
    unfolding get_current_hash save_record
    update_hashes clients d = save_hashes (get_current_hash clients d) d
