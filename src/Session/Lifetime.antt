-- ===== src/Session/Lifetime.antt =====
-- How long the session of handler/session.go lives when it is used, and how it ends.
use wireguard_ui.Prelude.{
  ℕ, ◌+◌, ◌<◌, String, ◌≡◌, true, false, ◌&&◌, Option, some, none, leb, arith,
}
use wireguard_ui.Session.Values.{ℤ, Config, Context, follow_up}
use wireguard_ui.Session.{
  or_day, is_android_client, get_max_age, get_created_at, effective_idle_seconds,
  effective_idle_seconds_for_cookie, is_valid_session, touch_session_idle, do_refresh_session,
  clear_session,
}

or_day_pos : (n : ℤ) → 0 < or_day n
unfolding or_day
or_day_pos n = ground arith

idle_pos : (cfg : Config) (c : Context) → 0 < effective_idle_seconds cfg c
unfolding effective_idle_seconds
idle_pos cfg c = ground (arith, or_day_pos (get_max_age cfg c.session))

module _ (cfg : Config) (crc : String → Option ℕ) where
  -- While logins are required, a request that passes the check and whose session could be saved
  -- slides the window: with its cookies a later request passes exactly from that time on, up to the
  -- idle time of the client, and up to the maximal duration from the session's creation, while no
  -- user changes.
  pub touch_session_idle_window :
      (c : Context) (later : ℕ)
      → cfg.disable_login ≡ false
      → c.saves ≡ true
      → is_valid_session cfg crc c ≡ true
      → is_valid_session cfg crc (follow_up (touch_session_idle cfg c) later) ≡ (
          leb c.now later
          && leb later (c.now + effective_idle_seconds cfg c)
          && leb later (get_created_at cfg c.session + cfg.session_max_duration))
  unfolding is_valid_session touch_session_idle effective_idle_seconds
      effective_idle_seconds_for_cookie is_android_client
  touch_session_idle_window c later on saved valid =
      ground (arith, or_day_pos (get_max_age cfg c.session))

  -- While logins are required, after a logout whose session could be saved, the session that the
  -- browser then holds fails the check at any time and with any cookie `session_token`, if no user
  -- has the empty name.
  pub clear_session_ends :
      (c : Context) (later : ℕ) (token : Option String)
      → cfg.disable_login ≡ false
      → c.saves ≡ true
      → crc "" ≡ none
      → is_valid_session cfg crc (record (follow_up (clear_session c) later) { token = token })
        ≡ false
  unfolding is_valid_session clear_session
  clear_session_ends c later token on saved nobody = ground arith

-- What a browser does with a session: a next request that passes through the guards of a page.
pub data Browse (cfg : Config) (c : Context) : Context → Type 0 where
  here : Browse cfg c c
  visit :
      {d : Context} (later : ℕ)
      → Browse cfg c d
      → Browse cfg c (touch_session_idle cfg (follow_up d later))
  refresh : {d : Context} → Browse cfg c d → Browse cfg c (do_refresh_session cfg d)

-- The creation time of a session is the same in the request and in the browser.
record IsCreatedAt (t : ℕ) (c : Context) : Type 0 where
  live : c.session.created_at ≡ some t
  kept : c.saved.created_at ≡ some t

touch-IsCreatedAt :
    (cfg : Config) (t later : ℕ) (d : Context)
    → IsCreatedAt t d
    → IsCreatedAt t (touch_session_idle cfg (follow_up d later))
unfolding touch_session_idle
touch-IsCreatedAt cfg t later d h = ground arith

refresh-IsCreatedAt :
    (cfg : Config) (t : ℕ) (d : Context)
    → IsCreatedAt t d
    → IsCreatedAt t (do_refresh_session cfg d)
unfolding do_refresh_session
refresh-IsCreatedAt cfg t d h = ground arith

Browse-IsCreatedAt :
    (cfg : Config) (t : ℕ) {c d : Context} → IsCreatedAt t c → Browse cfg c d → IsCreatedAt t d
Browse-IsCreatedAt cfg t h here = h
Browse-IsCreatedAt cfg t h (visit {d = e} later r) =
    touch-IsCreatedAt cfg t later e (Browse-IsCreatedAt cfg t h r)
Browse-IsCreatedAt cfg t h (refresh {d = e} r) =
    refresh-IsCreatedAt cfg t e (Browse-IsCreatedAt cfg t h r)

expired :
    (cfg : Config) (crc : String → Option ℕ) (t later : ℕ) (d : Context)
    → cfg.disable_login ≡ false
    → IsCreatedAt t d
    → t + cfg.session_max_duration < later
    → is_valid_session cfg crc (follow_up d later) ≡ false
unfolding is_valid_session
expired cfg crc t later d on h late = ground arith

-- While logins are required and both the request and the browser have the creation time, however a
-- session is used, by any number of page views and refreshes, it fails the check once the
-- maximal duration since its creation has passed.
pub Browse-expires :
    (cfg : Config) (crc : String → Option ℕ) (c d : Context) (t later : ℕ)
    → cfg.disable_login ≡ false
    → c.session.created_at ≡ some t
    → c.saved.created_at ≡ some t
    → Browse cfg c d
    → t + cfg.session_max_duration < later
    → is_valid_session cfg crc (follow_up d later) ≡ false
Browse-expires cfg crc c d t later on live kept r late =
    expired cfg crc t later d on (Browse-IsCreatedAt cfg t (record { live = live; kept = kept }) r)
      late
