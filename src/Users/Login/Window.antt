-- ===== src/Users/Login/Window.antt =====
-- For how long a login holds.
use wireguard_ui.Prelude.{
  ℕ, zero, suc, ◌+◌, ◌<◌, String, ◌≡◌, refl, Bool, true, false, ◌&&◌, eq_refl, leb, ltb, arith,
}
use wireguard_ui.Store.{Driver}
use wireguard_ui.Session.Values.{ℤ, pos, negsuc, Config, Context, follow_up}
use wireguard_ui.Session.{
  android_companion_idle_min_seconds, is_android_client, or_day, effective_idle_seconds,
  is_valid_session,
}
use wireguard_ui.Users.{User, Crypto, World}
use wireguard_ui.Users.Login.{configured_age, login_age, set_login_session}

configured_age_pos : (minutes : ℤ) (remember_me : Bool) → 0 < configured_age minutes remember_me
unfolding configured_age
configured_age_pos (pos (suc n)) r = ground arith
configured_age_pos (pos zero) r = ground arith
configured_age_pos (negsuc n) r = ground arith

login_age_pos : (c : Context) (r : Bool) (minutes : ℤ) → 0 < login_age c r minutes
unfolding login_age
login_age_pos c r minutes = ground (arith, configured_age_pos minutes r)

or_day_pos : (n : ℕ) → 0 < n → or_day (pos n) ≡ n
unfolding or_day
or_day_pos zero h = absurd (omega arith)
or_day_pos (suc n) h = refl

-- The Android client's minimum is in the age already.
login_age_android :
    (c : Context) (r : Bool) (minutes : ℤ)
    → is_android_client c ≡ true
    → ltb (login_age c r minutes) android_companion_idle_min_seconds ≡ false
unfolding login_age
login_age_android c r minutes h = ground arith

module _ (D : Driver User) (k : Crypto) (cfg : Config) where
  -- While logins are required, after a login whose session could be saved, a later request of the
  -- same client with the cookies of the answer passes the session check exactly from the time of
  -- the login on, up to the login's idle age, and up to the maximal duration of a session, while no
  -- user changes.
  pub set_login_session_window :
      (w : World D) (c : Context) (u : User) (remember_me : Bool) (minutes : ℤ) (uid : String)
      (later : ℕ)
      → cfg.disable_login ≡ false
      → c.saves ≡ true
      → is_valid_session cfg
          (set_login_session D k w c u remember_me minutes uid).0.crc
          (follow_up (set_login_session D k w c u remember_me minutes uid).1 later)
        ≡ (leb c.now later
            && leb later (c.now + login_age c remember_me minutes)
            && leb later (c.now + cfg.session_max_duration))
  unfolding set_login_session is_valid_session effective_idle_seconds is_android_client
  set_login_session_window w c u r minutes uid later on saved = ground (
    arith,
    login_age_pos c r minutes,
    or_day_pos (login_age c r minutes),
    login_age_android c r minutes,
    eq_refl uid,
    eq_refl u.username,
  )
