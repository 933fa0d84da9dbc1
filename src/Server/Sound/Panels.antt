-- ===== src/Server/Sound/Panels.antt =====
-- The requests that change the global settings alone: each keeps the server's records sound.
use wireguard_ui.Prelude.{
  ℕ, String, Bool, true, false, not, ◌&&◌, ◌≡◌, inl, inr, Option, none, some, ◌==◌, Bool-cases,
  Option-cases, if◌then◌else◌, arith,
}
use wireguard_ui.Text.{trim_space}
use wireguard_ui.Store.{Driver, IsDriver}
use wireguard_ui.Session.Values.{Config}
use wireguard_ui.Net.Pool.{NetText}
use wireguard_ui.Users.{User, Crypto}
use wireguard_ui.Server.{
  GlobalSetting, ServerRecord, ServerDigest, as_settings, get_global_settings,
}
use wireguard_ui.Server.Settings.{
  validate_mtu, validate_ip_address_list, timeout_of, keep_fields, or_none, Panel, store_settings,
  global_setting_submit, api_set_realtime_stats_enabled,
}
use wireguard_ui.Server.Sound.{
  IsSound, IsSoundSettings, HasSettings, theme_of-IsTheme, timeout_of-IsTimeout,
  save_global_settings-IsSound, update_hashes-IsSound,
}

module _ {DS : Driver ServerRecord} (laws : IsDriver DS) (DU : Driver User) (k : Crypto)
    (cfg : Config) (digest : ServerDigest) (t : NetText) {Ip : Type 0}
    (parse_ip : String → Option Ip) (clients : String) where
  store_settings-IsSound :
      (disabled : Bool) (s : GlobalSetting) (p : Panel DS DU k cfg digest parse_ip)
      → IsSoundSettings parse_ip s
      → IsSound DS t parse_ip p.dir
      → IsSound DS t parse_ip
          (store_settings DS DU k cfg digest parse_ip clients disabled s p).0.dir
  unfolding store_settings
  store_settings-IsSound disabled s p g sound =
      let saved = save_global_settings-IsSound DS t parse_ip laws s p.dir g sound in
      ground (arith, saved, update_hashes-IsSound DS t parse_ip laws digest clients _ saved)

  -- The settings that a submission stores.
  abbrev submitted : ℕ → GlobalSetting → GlobalSetting → GlobalSetting
  submitted now prev body = record (keep_fields prev body) {
    session_timeout_minutes =
        timeout_of (keep_fields prev body).session_timeout_minutes prev.session_timeout_minutes;
    updated_at = now;
  }

  keep_path :
      (sent stored : String)
      → (trim_space stored == "") ≡ false
      → (trim_space (if trim_space sent == "" then stored else sent) == "") ≡ false
  keep_path sent stored h = elim (Bool-cases (trim_space sent == "")) [
    | inl e ↦ rw e h
    | inr e ↦ rw e e
  ]

  submitted_sound :
      (now : ℕ) (prev body : GlobalSetting)
      → IsSoundSettings parse_ip prev
      → validate_ip_address_list parse_ip body.dns_servers ≡ true
      → validate_mtu body.mtu ≡ true
      → IsSoundSettings parse_ip (submitted now prev body)
  unfolding keep_fields
  submitted_sound now prev body h dns mtu = record {
    dns_parse = dns;
    mtu_fits = mtu;
    themed = theme_of-IsTheme body.ui_theme;
    timed = timeout_of-IsTimeout body.session_timeout_minutes prev.session_timeout_minutes;
    placed = keep_path body.config_file_path prev.config_file_path h.placed;
  }

  stored_sound :
      (d : DS.Dir)
      → IsSound DS t parse_ip d
      → IsSoundSettings parse_ip (or_none (get_global_settings DS d))
  unfolding get_global_settings
  stored_sound d h = elim (Option-cases (as_settings (DS.read d "global_settings"))) [
    | inl e ↦ absurd (let g : HasSettings parse_ip none = rw e at h.settings in g)
    | inr (s, e) ↦ let g : IsSoundSettings parse_ip s = rw e at h.settings in rw e g
  ]

  pub global_setting_submit-IsSound :
      (now : ℕ) (body : GlobalSetting) (p : Panel DS DU k cfg digest parse_ip)
      → IsSound DS t parse_ip p.dir
      → IsSound DS t parse_ip
          (global_setting_submit DS DU k cfg digest parse_ip clients now body p).0.dir
  unfolding global_setting_submit keep_fields
  global_setting_submit-IsSound now body p h =
      let prev = or_none (get_global_settings DS p.dir) in
      ground (
        arith,
        h,
        λ (dns : validate_ip_address_list parse_ip body.dns_servers ≡ true)
              (mtu : validate_mtu body.mtu ≡ true).
            store_settings-IsSound (prev.totp_enabled && not body.totp_enabled)
              (submitted now prev body) p
              (submitted_sound now prev body (stored_sound p.dir h) dns mtu) h,
      )

  pub api_set_realtime_stats_enabled-IsSound :
      (now : ℕ) (body : Option Bool) (p : Panel DS DU k cfg digest parse_ip)
      → IsSound DS t parse_ip p.dir
      → IsSound DS t parse_ip
          (api_set_realtime_stats_enabled DS DU k cfg digest parse_ip clients now body p).0.dir
  unfolding api_set_realtime_stats_enabled get_global_settings
  api_set_realtime_stats_enabled-IsSound now none p h = ground arith
  api_set_realtime_stats_enabled-IsSound now (some enabled) p h =
      elim (Option-cases (as_settings (DS.read p.dir "global_settings"))) [
        | inl e ↦ ground arith
        | inr (prev, e) ↦
            let g : IsSoundSettings parse_ip prev = rw e at h.settings in
            let s = record prev { realtime_stats_enabled = enabled; updated_at = now } in
            let saved =
              save_global_settings-IsSound DS t parse_ip laws s p.dir
                (record {
                  dns_parse = g.dns_parse;
                  mtu_fits = g.mtu_fits;
                  themed = g.themed;
                  timed = g.timed;
                  placed = g.placed;
                })
                h in
            ground (arith, saved, update_hashes-IsSound DS t parse_ip laws digest clients _ saved)
      ]
