-- ===== src/Server/Sound.antt =====
-- What every request on the server's records keeps of the stored settings and addresses.
pub mod Requests
pub mod Panels
pub mod Run
use wireguard_ui.Prelude.{
  ℕ, ◌≤◌, String, Bool, true, false, not, ◌&&◌, ◌||◌, ◌≡◌, ◌⊎◌, inl, inr, refl, Option, none, some,
  List, [], ◌∷◌, ◌==◌, eq_iff, Bool-cases, Option-cases, if◌then◌else◌, arith,
}
use wireguard_ui.Text.{trim_space, lowers_to}
use wireguard_ui.Store.{Driver, IsDriver}
use wireguard_ui.Session.Values.{ℤ, pos, negsuc, Config, Context}
use wireguard_ui.Net.Pool.{NetText, validate_cidr_list}
use wireguard_ui.Users.{User, Crypto, World}
use wireguard_ui.Server.{
  ServerInterface, GlobalSetting, ServerRecord, ServerDigest, interfaces, global_settings, keypair,
  hashes, as_interface, as_settings, get_global_settings, save_record, update_hashes,
  get_current_hash,
}
use wireguard_ui.Server.Settings.{
  between, is_positive, or_half_hour, validate_mtu, validate_ip_address_list, theme_of, timeout_of,
  keep_fields, or_none, Panel, store_settings, global_setting_submit,
  api_set_realtime_stats_enabled,
}
use wireguard_ui.Server.Apply.{Disk, apply_records, reaches_hashes, job_of}
use wireguard_ui.Server.Handlers.{
  ServerPayload, settings_of, interface_of, wire_guard_server_interfaces,
  wire_guard_server_key_pair, save_settings, wire_guard_server_save,
}
use wireguard_ui.Tunnel.{Programs, Env, Host}

abbrev pub IsTheme : String → Type 0
IsTheme t = (t ≡ "light") ⊎ (t ≡ "auto") ⊎ (t ≡ "dark")

abbrev pub IsTimeout : ℤ → Type 0
IsTimeout (pos n) = (5 ≤ n) × (n ≤ 1440)
IsTimeout (negsuc n) = ⊥

one_of_three : (a b : Bool) → IsTheme (if a then "light" else if b then "auto" else "dark")
one_of_three true b = inl refl
one_of_three false true = inr (inl refl)
one_of_three false false = inr (inr refl)

between_bounds : (n : ℕ) → (5 ≤ between n) × (between n ≤ 1440)
between_bounds n = ground arith

pub theme_of-IsTheme : (t : String) → IsTheme (theme_of t)
unfolding theme_of
theme_of-IsTheme t =
    one_of_three (lowers_to (trim_space t) "light") (lowers_to (trim_space t) "auto")

pub timeout_of-IsTimeout : (sent stored : ℤ) → IsTimeout (timeout_of sent stored)
unfolding timeout_of
timeout_of-IsTimeout sent stored =
    between_bounds
      (or_half_hour (if not (is_positive sent) && is_positive stored then stored else sent))

module _ {Ip : Type 0} (parse_ip : String → Option Ip) where
  pub record IsSoundSettings (s : GlobalSetting) : Type 0 where
    pub dns_parse : validate_ip_address_list parse_ip s.dns_servers ≡ true
    pub mtu_fits : validate_mtu s.mtu ≡ true
    pub themed : IsTheme s.ui_theme
    pub timed : IsTimeout s.session_timeout_minutes
    pub placed : (trim_space s.config_file_path == "") ≡ false

  -- The settings are there and sound.
  abbrev pub HasSettings : Option GlobalSetting → Type 0
  HasSettings none = ⊥
  HasSettings (some s) = IsSoundSettings s

abbrev pub HasAddresses : NetText → Option ServerInterface → Type 0
HasAddresses t none = Unit
HasAddresses t (some i) = validate_cidr_list t i.addresses false ≡ true

module _ (D : Driver ServerRecord) where
  -- A write changes the record of its name alone, or nothing.
  reads-save_record :
      IsDriver D
      → (name : String) (r : ServerRecord) (d : D.Dir)
      → ((j : String)
          → D.read (save_record D name r d).0 j ≡ (if name == j then some r else D.read d j))
        ⊎ ((j : String) → D.read (save_record D name r d).0 j ≡ D.read d j)
  unfolding save_record
  reads-save_record laws name r d = elim (Bool-cases (D.write d name r).1) [
    | inl written ↦ inl (λ j. laws.read-write d name r j written)
    | inr failed ↦ inr (λ j. laws.read-write_failed d name r j failed)
  ]

  module _ (t : NetText) {Ip : Type 0} (parse_ip : String → Option Ip) where
    pub record IsSound (d : D.Dir) : Type 0 where
      pub settings : HasSettings parse_ip (as_settings (D.read d "global_settings"))
      pub addresses : HasAddresses t (as_interface (D.read d "interfaces"))

    IsSound-same :
        (d d' : D.Dir)
        → IsSound d
        → D.read d' "global_settings" ≡ D.read d "global_settings"
        → D.read d' "interfaces" ≡ D.read d "interfaces"
        → IsSound d'
    IsSound-same d d' h e f = record { settings = rw e h.settings; addresses = rw f h.addresses }

    pub save_global_settings-IsSound :
        IsDriver D
        → (s : GlobalSetting) (d : D.Dir) → IsSoundSettings parse_ip s
        → IsSound d
        → IsSound (save_record D "global_settings" (global_settings s) d).0
    save_global_settings-IsSound laws s d g h =
        elim (reads-save_record laws "global_settings" (global_settings s) d) [
          | inl e ↦ record {
            settings = rw (e "global_settings") g;
            addresses = rw (e "interfaces") h.addresses;
          }
          | inr e ↦ IsSound-same d _ h (e "global_settings") (e "interfaces")
        ]

    pub save_server_interface-IsSound :
        IsDriver D
        → (i : ServerInterface) (d : D.Dir) → validate_cidr_list t i.addresses false ≡ true
        → IsSound d
        → IsSound (save_record D "interfaces" (interfaces i) d).0
    save_server_interface-IsSound laws i d g h =
        elim (reads-save_record laws "interfaces" (interfaces i) d) [
          | inl e ↦ record {
            settings = rw (e "global_settings") h.settings;
            addresses = rw (e "interfaces") g;
          }
          | inr e ↦ IsSound-same d _ h (e "global_settings") (e "interfaces")
        ]

    pub save_other-IsSound :
        IsDriver D
        → (name : String) (r : ServerRecord) (d : D.Dir) → (name == "global_settings") ≡ false
        → (name == "interfaces") ≡ false
        → IsSound d
        → IsSound (save_record D name r d).0
    save_other-IsSound laws name r d a b h = elim (reads-save_record laws name r d) [
      | inl e ↦
          IsSound-same d _ h (ground (arith, e "global_settings")) (ground (arith, e "interfaces"))
      | inr e ↦ IsSound-same d _ h (e "global_settings") (e "interfaces")
    ]

    pub update_hashes-IsSound :
        IsDriver D
        → (digest : ServerDigest) (clients : String) (d : D.Dir) → IsSound d
        → IsSound (update_hashes D digest clients d).0
    unfolding update_hashes
    update_hashes-IsSound laws digest clients d h = save_other-IsSound laws "hashes" _ d refl refl h
