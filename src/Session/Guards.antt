-- ===== src/Session/Guards.antt =====
-- The guards around the routes.
use wireguard_ui.Prelude.{
  ℕ, String, ◌≡◌, true, false, ◌&&◌, Option, some, arith, Bool-cases, inl, inr,
}
use wireguard_ui.Text.{has_suffix}
use wireguard_ui.Session.Values.{Config, Context}
use wireguard_ui.Session.{
  Handler, is_admin, is_valid_session, do_refresh_session, touch_session_idle, token_matches,
  valid_session, refresh_session, needs_admin,
}

module _ (cfg : Config) where
  is_admin-touch_session_idle :
      (c : Context) → is_admin cfg (touch_session_idle cfg c) ≡ is_admin cfg c
  unfolding is_admin touch_session_idle
  is_admin-touch_session_idle c = ground arith

  -- While logins are required, behind `ValidSession` and `NeedsAdmin` the answer and the cookies of
  -- a request with no valid session, or with the session of a user who is no administrator, do not
  -- depend on the handler.
  pub admin_only :
      (crc : String → Option ℕ) (next other : Handler) (c : Context)
      → cfg.disable_login ≡ false
      → (is_valid_session cfg crc c && is_admin cfg c) ≡ false
      → valid_session cfg crc (needs_admin cfg next) c
        ≡ valid_session cfg crc (needs_admin cfg other) c
  unfolding valid_session needs_admin
  admin_only crc next other c on refused = ground (arith, is_admin-touch_session_idle c)

  -- a session that was touched in this second is not due for a refresh
  refresh_of_fresh :
      (c : Context) → c.session.updated_at ≡ some c.now → do_refresh_session cfg c ≡ c
  unfolding do_refresh_session
  refresh_of_fresh c fresh = ground arith

  refresh_of_off : (c : Context) → cfg.disable_login ≡ true → do_refresh_session cfg c ≡ c
  unfolding do_refresh_session
  refresh_of_off c off = ground arith

  touch_fresh :
      (c : Context)
      → token_matches c ≡ true
      → (touch_session_idle cfg c).session.updated_at ≡ some (touch_session_idle cfg c).now
  unfolding touch_session_idle
  touch_fresh c h = ground arith

  token_matches_of_valid :
      (crc : String → Option ℕ) (c : Context)
      → cfg.disable_login ≡ false
      → is_valid_session cfg crc c ≡ true
      → token_matches c ≡ true
  unfolding is_valid_session
  token_matches_of_valid crc c on valid = ground arith

  -- Behind `ValidSession`, on every path that does not end in "/logout", `RefreshSession` changes
  -- nothing: the session was touched just before, so it never is a day old.
  pub refresh_session_idle :
      (crc : String → Option ℕ) (next : Handler) (c : Context)
      → has_suffix c.path "/logout" ≡ false
      → valid_session cfg crc (refresh_session cfg next) c ≡ valid_session cfg crc next c
  unfolding valid_session refresh_session
  refresh_session_idle crc next c page = elim (Bool-cases cfg.disable_login) [
    | inl off ↦ ground (arith, refresh_of_off c)
    | inr on ↦ elim (Bool-cases (is_valid_session cfg crc c)) [
      | inr refused ↦ ground arith
      | inl valid ↦ ground (
        arith,
        refresh_of_fresh (touch_session_idle cfg c)
            (touch_fresh c (token_matches_of_valid crc c on valid)),
      )
    ]
  ]
