-- ===== src/Server/Sound/Run.antt =====
-- A history of requests on the server's records.
use wireguard_ui.Prelude.{ℕ, String, Bool, Option, List, [], ◌∷◌}
use wireguard_ui.Store.{Driver, IsDriver}
use wireguard_ui.Session.Values.{Config, Context}
use wireguard_ui.Net.Pool.{NetText}
use wireguard_ui.Users.{User, Crypto, World}
use wireguard_ui.Server.{ServerInterface, GlobalSetting, ServerRecord, ServerDigest}
use wireguard_ui.Server.Settings.{global_setting_submit, api_set_realtime_stats_enabled}
use wireguard_ui.Server.Apply.{Disk, apply_records}
use wireguard_ui.Server.Handlers.{
  ServerPayload, wire_guard_server_interfaces, wire_guard_server_key_pair, wire_guard_server_save,
}
use wireguard_ui.Server.Sound.{IsSound}
use wireguard_ui.Server.Sound.Requests.{
  wire_guard_server_interfaces-IsSound, wire_guard_server_key_pair-IsSound, apply_records-IsSound,
  wire_guard_server_save-IsSound,
}
use wireguard_ui.Server.Sound.Panels.{
  global_setting_submit-IsSound, api_set_realtime_stats_enabled-IsSound,
}
use wireguard_ui.Tunnel.{Programs, Env, Host}

module _ (DS : Driver ServerRecord) (DU : Driver User) (w : Programs) where
  -- A request, with the users, the session and the host that it meets.
  pub data ServerRequest : Type 0 where
    submits : String → ℕ → GlobalSetting → World DU → Context → ServerRequest
    sets_realtime : String → ℕ → Option Bool → World DU → Context → ServerRequest
    sets_interfaces : ℕ → ServerInterface → ServerRequest
    makes_key_pair : ℕ → Option (String × String) → ServerRequest
    saves : Env → Disk DS → String → Bool → ℕ → Option ServerPayload → Host w → ServerRequest
    applies : Env → Disk DS → String → Bool → Host w → ServerRequest

  module _ (k : Crypto) (cfg : Config) (digest : ServerDigest) (t : NetText) {Ip : Type 0}
      (parse_ip : String → Option Ip) where
    unfoldable pub serve : DS.Dir → ServerRequest → DS.Dir
    serve d (submits clients now body users c) =
        (global_setting_submit DS DU k cfg digest parse_ip clients now body
          (record { dir = d; users = users; request = c })).0.dir
    serve d (sets_realtime clients now body users c) =
        (api_set_realtime_stats_enabled DS DU k cfg digest parse_ip clients now body
          (record { dir = d; users = users; request = c })).0.dir
    serve d (sets_interfaces now i) = (wire_guard_server_interfaces DS digest t parse_ip now i d).0
    serve d (makes_key_pair now key) = (wire_guard_server_key_pair DS digest t parse_ip now key d).0
    serve d (saves env disk clients sysctl now body h) =
        (wire_guard_server_save DS digest t parse_ip w env disk clients sysctl now body d h).0
    serve d (applies env disk clients restart h) =
        (apply_records DS digest w env disk clients restart d h).0

    unfoldable pub run : DS.Dir → List ServerRequest → DS.Dir
    unfolding serve
    run d [] = d
    run d (r ∷ rs) = run (serve d r) rs

module _ {DS : Driver ServerRecord} (laws : IsDriver DS) (DU : Driver User) (w : Programs)
    (k : Crypto) (cfg : Config) (digest : ServerDigest) (t : NetText) {Ip : Type 0}
    (parse_ip : String → Option Ip) where
  serve-IsSound :
      (d : DS.Dir) (r : ServerRequest DS DU w)
      → IsSound DS t parse_ip d
      → IsSound DS t parse_ip (serve DS DU w k cfg digest t parse_ip d r)
  unfolding serve
  serve-IsSound d (submits clients now body users c) h =
      global_setting_submit-IsSound laws DU k cfg digest t parse_ip clients now body _ h
  serve-IsSound d (sets_realtime clients now body users c) h =
      api_set_realtime_stats_enabled-IsSound laws DU k cfg digest t parse_ip clients now body _ h
  serve-IsSound d (sets_interfaces now i) h =
      wire_guard_server_interfaces-IsSound laws digest t parse_ip now i d h
  serve-IsSound d (makes_key_pair now key) h =
      wire_guard_server_key_pair-IsSound laws digest t parse_ip now key d h
  serve-IsSound d (saves env disk clients sysctl now body host) h =
      wire_guard_server_save-IsSound laws digest t parse_ip w env disk clients sysctl now body d
        host h
  serve-IsSound d (applies env disk clients restart host) h =
      apply_records-IsSound laws digest t parse_ip w env disk clients restart d host h

  -- Over any history of requests that submit global settings, switch the realtime statistics, set
  -- the interface's addresses, generate a key pair, save the server's page and apply the
  -- configuration, on a driver with the stated laws, whichever of its writes fail, the stored
  -- settings stay sound, and so do the addresses, if they start so: each DNS server parses, the MTU
  -- is absent or in range, the theme is one of the three, the session timeout lies between 5 and
  -- 1440 minutes, the configuration has a path, and each address of the interface is a CIDR.
  pub run-IsSound :
      (d : DS.Dir) (rs : List (ServerRequest DS DU w))
      → IsSound DS t parse_ip d
      → IsSound DS t parse_ip (run DS DU w k cfg digest t parse_ip d rs)
  unfolding run
  run-IsSound d [] h = h
  run-IsSound d (r ∷ rs) h =
      run-IsSound (serve DS DU w k cfg digest t parse_ip d r) rs (serve-IsSound d r h)
