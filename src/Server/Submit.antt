-- ===== src/Server/Submit.antt =====
-- What an accepted submission of the global settings leaves of the records and of the users.
use wireguard_ui.Prelude.{
  ℕ, String, Bool, true, false, not, ◌&&◌, ◌≡◌, ◌⊎◌, inl, inr, refl, ap, ◌∙◌, Option, some, List,
  ◌==◌, All, if◌then◌else◌, Option-cases, arith,
}
use wireguard_ui.Text.{trim_space}
use wireguard_ui.Store.{Driver, IsDriver}
use wireguard_ui.Session.Values.{Config, Reply, json, lit, tr}
use wireguard_ui.Session.{current_user}
use wireguard_ui.Users.{User, Crypto, get_users, get_user_by_name}
use wireguard_ui.Users.Passkeys.{clear_stored_passkeys_for_all_users}
use wireguard_ui.Users.Passkeys.Cleared.{
  IsKeyed, IsCleared, clear_stored_passkeys_for_all_users_lem,
}
use wireguard_ui.Server.{
  GlobalSetting, ServerRecord, ServerDigest, global_settings, get_global_settings, update_hashes,
  hashes_changed, save_global_settings,
}
use wireguard_ui.Server.Settings.{
  validate_mtu, validate_ip_address_list, timeout_of, keep_fields, or_none, Panel,
  refresh_submitter, store_settings, global_setting_submit,
}
use wireguard_ui.Server.Hashes.{
  read-save_record, get_global_settings-update_hashes, hashes_changed-update_hashes,
}

-- The answers of a submission that is carried out.
abbrev pub IsAccepted : Reply → Type 0
IsAccepted r =
    (r ≡ json 200 true (lit "Updated global settings successfully"))
    ⊎ (r ≡ json 200 true (tr "api.global_saved_passkeys_disabled_kernel"))

-- The stored settings `s` after a submission of `body`, where `prev` were stored before: the switches
-- of the server's page stay, and so do an endpoint and a path that are not sent.
pub record IsSubmitted {Ip : Type 0} (parse_ip : String → Option Ip) (prev body s : GlobalSetting)
    : Type 0 where
  pub ip_forward : s.ip_forward_desired ≡ prev.ip_forward_desired
  pub dns_override : s.global_dns_override ≡ prev.global_dns_override
  pub persists : s.persist_wg_conf_on_save ≡ prev.persist_wg_conf_on_save
  pub applies : s.auto_apply_wg_on_save ≡ prev.auto_apply_wg_on_save
  pub endpoint : s.endpoint_address ≡ (
      if trim_space body.endpoint_address == ""
      then prev.endpoint_address
      else body.endpoint_address)
  pub path : s.config_file_path ≡ (
      if trim_space body.config_file_path == ""
      then prev.config_file_path
      else body.config_file_path)
  pub passkeys : s.totp_enabled ≡ body.totp_enabled
  pub dns : s.dns_servers ≡ body.dns_servers
  pub dns_parse : validate_ip_address_list parse_ip s.dns_servers ≡ true
  pub mtu_fits : validate_mtu s.mtu ≡ true

module _ {DS : Driver ServerRecord} {DU : Driver User} (laws : IsDriver DS) (users : IsDriver DU)
    (k : Crypto) (cfg : Config) (digest : ServerDigest) {Ip : Type 0}
    (parse_ip : String → Option Ip) (clients : String) where
  dir-refresh_submitter :
      (p : Panel DS DU k cfg digest parse_ip)
      → ((refresh_submitter DS DU k cfg digest parse_ip p).dir ≡ p.dir)
        × ((refresh_submitter DS DU k cfg digest parse_ip p).users ≡ p.users)
  unfolding refresh_submitter get_user_by_name
  dir-refresh_submitter p = elim (Option-cases (DU.read p.users.dir (current_user cfg p.request))) [
    | inl e ↦ (ground arith, ground arith)
    | inr (u, e) ↦ (ground arith, ground arith)
  ]

  -- The directory after an accepted write of the settings.
  store_settings_lem :
      (disabled : Bool) (s : GlobalSetting) (p : Panel DS DU k cfg digest parse_ip)
      → IsAccepted (store_settings DS DU k cfg digest parse_ip clients disabled s p).1
      → let d = (save_global_settings DS s p.dir).0 in
        ((save_global_settings DS s p.dir).1 ≡ true)
        × ((update_hashes DS digest clients d).1 ≡ true)
        × ((store_settings DS DU k cfg digest parse_ip clients disabled s p).0.dir
            ≡ (update_hashes DS digest clients d).0)
  unfolding store_settings
  store_settings_lem false s p (inl done) = (ground arith, ground arith, ground arith)
  store_settings_lem false s p (inr done) = (ground arith, ground arith, ground arith)
  store_settings_lem true s p (inl done) = (ground arith, ground arith, ground arith)
  store_settings_lem true s p (inr done) = (ground arith, ground arith, ground arith)

  -- The settings that a submission stores.
  abbrev submitted : ℕ → GlobalSetting → GlobalSetting → GlobalSetting
  submitted now prev body = record (keep_fields prev body) {
    session_timeout_minutes =
        timeout_of (keep_fields prev body).session_timeout_minutes prev.session_timeout_minutes;
    updated_at = now;
  }

  -- An accepted submission has passed the checks and stores its settings.
  submits :
      (now : ℕ) (body : GlobalSetting) (p : Panel DS DU k cfg digest parse_ip)
      → let prev = or_none (get_global_settings DS p.dir) in
        let o = global_setting_submit DS DU k cfg digest parse_ip clients now body p in
        IsAccepted o.1
        → (validate_ip_address_list parse_ip body.dns_servers ≡ true)
          × (validate_mtu body.mtu ≡ true)
          × (o
              ≡ store_settings DS DU k cfg digest parse_ip clients
                  (prev.totp_enabled && not body.totp_enabled)
                  (submitted now prev body)
                  p)
  unfolding global_setting_submit keep_fields
  submits now body p (inl done) = ground arith
  submits now body p (inr done) = ground arith

  submitted-IsSubmitted :
      (now : ℕ) (prev body : GlobalSetting)
      → validate_ip_address_list parse_ip body.dns_servers ≡ true
      → validate_mtu body.mtu ≡ true
      → IsSubmitted parse_ip prev body (submitted now prev body)
  unfolding keep_fields
  submitted-IsSubmitted now prev body dns mtu = record {
    ip_forward = refl;
    dns_override = refl;
    persists = refl;
    applies = refl;
    endpoint = refl;
    path = refl;
    passkeys = refl;
    dns = refl;
    dns_parse = dns;
    mtu_fits = mtu;
  }

  stored_settings :
      (disabled : Bool) (s : GlobalSetting) (p : Panel DS DU k cfg digest parse_ip)
      → let o = store_settings DS DU k cfg digest parse_ip clients disabled s p in
        IsAccepted o.1
        → (get_global_settings DS o.0.dir ≡ some s)
          × (hashes_changed DS digest clients o.0.dir ≡ false)
  unfolding get_global_settings
  stored_settings disabled s p done =
      let (saved, hashed, e) = store_settings_lem disabled s p done in
      let d = (save_global_settings DS s p.dir).0 in
      let stored =
        read-save_record laws "global_settings" (global_settings s) p.dir "global_settings" saved in
      let kept = get_global_settings-update_hashes laws digest clients d hashed in
      (rw e (kept ∙ rw stored), rw e (hashes_changed-update_hashes laws digest clients d hashed))

  -- Over a driver with the stated laws, a submission of the global settings that is answered with
  -- status 200 has stored settings with the sent switch of passkeys, the sent list of DNS servers,
  -- which all parse, and an MTU that is absent or in range; the four switches of the server's page
  -- are as they were stored before, and so are an endpoint or a path that was not sent, and for the
  -- same hash of the clients nothing is reported as pending.
  pub global_setting_submit-IsSubmitted :
      (now : ℕ) (body : GlobalSetting) (p : Panel DS DU k cfg digest parse_ip)
      → IsAccepted (global_setting_submit DS DU k cfg digest parse_ip clients now body p).1
      → let o = global_setting_submit DS DU k cfg digest parse_ip clients now body p in
        (s : GlobalSetting) × (get_global_settings DS o.0.dir ≡ some s)
        × IsSubmitted parse_ip (or_none (get_global_settings DS p.dir)) body s
        × (hashes_changed DS digest clients o.0.dir ≡ false)
  global_setting_submit-IsSubmitted now body p done =
      let prev = or_none (get_global_settings DS p.dir) in
      let (dns, mtu, e) = submits now body p done in
      let (stored, same) = stored_settings _ (submitted now prev body) p (rw e at done) in
      (submitted now prev body, rw e stored, submitted-IsSubmitted now prev body dns mtu, rw e same)

  stored_users :
      (s : GlobalSetting) (p : Panel DS DU k cfg digest parse_ip)
      → let o = store_settings DS DU k cfg digest parse_ip clients true s p in
        IsAccepted o.1
        → ((clear_stored_passkeys_for_all_users DU k p.users).1 ≡ true)
          × (o.0.users ≡ (clear_stored_passkeys_for_all_users DU k p.users).0)
  unfolding store_settings
  stored_users s p (inl done) = (ground arith, ground arith)
  stored_users s p (inr done) = (ground arith, ground arith)

  -- Over drivers with the stated laws, when all users are read, each under its own name, and a
  -- submission that switches passkeys off is answered with status 200, no user of them has a
  -- credential left.
  pub global_setting_submit-IsCleared :
      (now : ℕ) (body : GlobalSetting) (p : Panel DS DU k cfg digest parse_ip) (us : List User)
      → get_users DU p.users ≡ some us
      → All (IsKeyed DU p.users) us
      → (or_none (get_global_settings DS p.dir)).totp_enabled ≡ true
      → body.totp_enabled ≡ false
      → IsAccepted (global_setting_submit DS DU k cfg digest parse_ip clients now body p).1
      → All
          (IsCleared DU
            (global_setting_submit DS DU k cfg digest parse_ip clients now body p).0.users)
          us
  global_setting_submit-IsCleared now body p us e h on off done =
      let prev = or_none (get_global_settings DS p.dir) in
      let (dns, mtu, step) = submits now body p done in
      let switched : (prev.totp_enabled && not body.totp_enabled) ≡ true =
        ground (arith, on, off) in
      let step' =
        step
        ∙ ap (λ b. store_settings DS DU k cfg digest parse_ip clients b (submitted now prev body) p)
            switched in
      let (cleared, after) = stored_users (submitted now prev body) p (rw step' at done) in
      rw step' (rw after (clear_stored_passkeys_for_all_users_lem users k p.users us e h cleared))
