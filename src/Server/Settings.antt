-- ===== src/Server/Settings.antt =====
-- `GlobalSettingSubmit` and `APISetRealtimeStatsEnabled` of handler/routes.go, and the checks of
-- util/util.go that they make. `parse_ip` is `net.ParseIP`.
use wireguard_ui.Prelude.{
  ℕ, zero, suc, String, Bool, true, false, not, ◌&&◌, ◌||◌, Option, none, some, List, [], ◌∷◌, ◌==◌,
  ltb, leb, if◌then◌else◌,
}
use wireguard_ui.Text.{trim_space, lowers_to}
use wireguard_ui.Store.{Driver}
use wireguard_ui.Session.Values.{ℤ, pos, negsuc, Config, Context, Reply, json, lit, tr, failure}
use wireguard_ui.Session.{current_user, set_user}
use wireguard_ui.Users.{User, Crypto, World, get_user_by_name, user_crc32}
use wireguard_ui.Users.Passkeys.{clear_stored_passkeys_for_all_users}
use wireguard_ui.Server.{
  GlobalSetting, ServerRecord, ServerDigest, no_settings, get_global_settings, save_global_settings,
  update_hashes,
}

unfoldable pub validate_mtu : ℤ → Bool
validate_mtu (pos zero) = true
validate_mtu (pos (suc n)) = leb 1280 (suc n) && leb (suc n) 9000
validate_mtu (negsuc n) = false

unfoldable pub validate_ip_address_list {ℓ} :
    {A : Type ℓ} → (String → Option A) → List String → Bool
validate_ip_address_list parse_ip [] = true
validate_ip_address_list parse_ip (ip ∷ ips) =
    let rest = validate_ip_address_list parse_ip ips in
    elim (parse_ip ip) [ none ↦ false | some _ ↦ rest ]

-- The switch over the theme.
unfoldable pub theme_of : String → String
theme_of theme =
    let t = trim_space theme in
    if lowers_to t "light" then "light" else if lowers_to t "auto" then "auto" else "dark"

abbrev pub is_positive : ℤ → Bool
is_positive (pos (suc n)) = true
is_positive _ = false

abbrev pub between : ℕ → ℕ
between n = if ltb n 5 then 5 else if ltb 1440 n then 1440 else n

abbrev pub or_half_hour : ℤ → ℕ
or_half_hour (pos (suc n)) = suc n
or_half_hour _ = 30

-- The session timeout: the sent one, or the stored one, or 30 minutes, between 5 and 1440.
unfoldable pub timeout_of : ℤ → ℤ → ℤ
timeout_of sent stored =
    let st : ℤ = if not (is_positive sent) && is_positive stored then stored else sent in
    pos (between (or_half_hour st))

-- The settings with the fields of the stored ones that a request does not change.
unfoldable pub keep_fields : GlobalSetting → GlobalSetting → GlobalSetting
unfolding theme_of
keep_fields prev s = record s {
  ui_theme = theme_of s.ui_theme;
  ip_forward_desired = prev.ip_forward_desired;
  global_dns_override = prev.global_dns_override;
  persist_wg_conf_on_save = prev.persist_wg_conf_on_save;
  auto_apply_wg_on_save = prev.auto_apply_wg_on_save;
  endpoint_address =
      if trim_space s.endpoint_address == "" then prev.endpoint_address else s.endpoint_address;
  config_file_path =
      if trim_space s.config_file_path == "" then prev.config_file_path else s.config_file_path;
}

abbrev pub or_none : Option GlobalSetting → GlobalSetting
or_none none = no_settings
or_none (some s) = s

module _ (DS : Driver ServerRecord) (DU : Driver User) (k : Crypto) (cfg : Config)
    (digest : ServerDigest) {Ip : Type 0} (parse_ip : String → Option Ip) where
  -- The server's collection, the users and the request after a handler.
  pub record Panel : Type 0 where
    pub dir : DS.Dir
    pub users : World DU
    pub request : Context

  -- The refresh of the submitter's session: the record `sess` is the one that `setUser` saves.
  unfoldable pub refresh_submitter : Panel → Panel
  unfolding get_user_by_name
  refresh_submitter p =
      let me = current_user cfg p.request in
      if cfg.disable_login || me == "" then p else elim (get_user_by_name DU p.users me) [
        | none ↦ p
        | some u ↦
            let c : Context = record p.request {
              session = record p.request.session { pk_login_cred = none };
            } in
            record p { request = set_user u.username u.admin (user_crc32 k u) c }
      ]

  -- From the write of the settings on; `disabled` tells that this request switches passkeys off.
  unfoldable pub store_settings : String → Bool → GlobalSetting → Panel → Panel × Reply
  unfolding clear_stored_passkeys_for_all_users update_hashes refresh_submitter
  store_settings clients disabled s p =
      let (dir, saved) = save_global_settings DS s p.dir in
      let p₁ : Panel = record p { dir = dir } in
      if not saved
      then (p₁, json 500 false (lit "Cannot generate Wireguard key pair"))
      else (let (users, cleared) : World DU × Bool =
            if disabled
            then clear_stored_passkeys_for_all_users DU k p.users
            else (p.users, true) in
          let p₂ : Panel = record p₁ { users = users } in
          if not cleared
          then (p₂, json 500 false (tr "api.saved_passkeys_cleared_failed"))
          else (let (dir₂, hashed) = update_hashes DS digest clients dir in
              let p₃ : Panel = record p₂ { dir = dir₂ } in
              if not hashed
              then (p₃, json 500 false (lit "Saved settings but failed to update pending state"))
              else if disabled
              then (
                refresh_submitter p₃,
                json 200 true (tr "api.global_saved_passkeys_disabled_kernel"),
              )
              else (p₃, json 200 true (lit "Updated global settings successfully"))))

  -- `GlobalSettingSubmit`; the body is what `c.Bind` fills in, of which the error is ignored.
  unfoldable pub global_setting_submit : String → ℕ → GlobalSetting → Panel → Panel × Reply
  unfolding get_global_settings keep_fields validate_ip_address_list validate_mtu timeout_of
      store_settings
  global_setting_submit clients now body p =
      let prev = or_none (get_global_settings DS p.dir) in
      let s = keep_fields prev body in
      if not (validate_ip_address_list parse_ip s.dns_servers)
      then (p, json 400 false (lit "Invalid DNS server address"))
      else if not (validate_mtu s.mtu)
      then (p, json 400 false (lit "MTU must be 1280..9000 or 0/empty to omit"))
      else store_settings clients (prev.totp_enabled && not body.totp_enabled)
          (record s {
            session_timeout_minutes =
                timeout_of s.session_timeout_minutes prev.session_timeout_minutes;
            updated_at = now;
          })
          p

  -- `APISetRealtimeStatsEnabled`; `none` is a body that does not bind.
  unfoldable pub api_set_realtime_stats_enabled : String → ℕ → Option Bool → Panel → Panel × Reply
  unfolding get_global_settings update_hashes
  api_set_realtime_stats_enabled clients now body p = elim (get_global_settings DS p.dir) [
    | none ↦ (p, json 500 false failure)
    | some prev ↦ elim body [
      | none ↦ (p, json 400 false (lit "Invalid JSON"))
      | some enabled ↦
          let (dir, saved) =
            save_global_settings DS
              (record prev { realtime_stats_enabled = enabled; updated_at = now }) p.dir in
          if not saved
          then (record p { dir = dir }, json 500 false (lit "Cannot save global settings"))
          else (let (dir₂, hashed) = update_hashes DS digest clients dir in
              let p₂ : Panel = record p { dir = dir₂ } in
              if hashed
              then (p₂, json 200 true (lit "Updated global settings successfully"))
              else (p₂, json 500 false (lit "Saved but failed to update pending state")))
    ]
  ]
