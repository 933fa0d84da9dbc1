-- ===== src/Users/Login.antt =====
-- `Login` and `Logout` of handler/routes.go, and `setLoginSession` of handler/passkeys.go.
pub mod Window
use Prim.Native.String
use wireguard_ui.Prelude.{
  ℕ, suc, ◌*◌, ◌%◌, ◌^◌, nat_eq, String, Bool, true, false, not, ◌&&◌, ◌||◌, Option, none, some,
  ◌==◌, ltb, if◌then◌else◌,
}
use wireguard_ui.Text.{username_matches}
use wireguard_ui.Store.{Driver}
use wireguard_ui.Session.Values.{
  ℤ, pos, Session, Config, Context, Reply, json, redirect, lit, tr, failure, uint32, int,
}
use wireguard_ui.Session.{
  android_companion_idle_min_seconds, is_android_client, save, clear_session,
}
use wireguard_ui.Users.{User, Crypto, World, user_crc32, get_user_by_name, update}

-- The decoded body; `none` is a field that is absent or of another type.
pub record LoginBody : Type 0 where
  pub username : Option String
  pub password : Option String
  pub remember_me : Option Bool

-- `panics` is the failed type assertion on a field of the body.
pub data LoginReply : Type 0 where
  answers : Reply → LoginReply
  panics : LoginReply

-- `ageMax`: the configured minutes, or a week where the user asks to be remembered, or a day, which is
-- also the age where the product of an `int` of 64 bits wraps to nothing or below.
configured_age : ℤ → Bool → ℕ
configured_age (pos (suc n)) remember_me =
    let seconds = suc n * 60 % 2 ^ 64 in
    if nat_eq seconds 0 || not (ltb seconds (2 ^ 63)) then 86400 else seconds
configured_age _ remember_me = if remember_me then 86400 * 7 else 86400

unfoldable pub login_age : Context → Bool → ℤ → ℕ
unfolding configured_age
login_age c remember_me minutes =
    let age = configured_age minutes remember_me in
    if is_android_client c && ltb age android_companion_idle_min_seconds
    then android_companion_idle_min_seconds
    else age

abbrev pub login_values : User → ℕ → String → ℕ → ℕ → Session
login_values u crc uid age now = record {
  username = some u.username;
  user_hash = uint32 crc;
  admin = some u.admin;
  session_token = some uid;
  max_age = int (pos age);
  created_at = some now;
  updated_at = some now;
  pk_login_cred = none;
}

module _ (D : Driver User) (k : Crypto) where
  -- `uid` is the new token of `xid.New`. The result tells whether there was no error.
  unfoldable pub set_login_session :
      World D → Context → User → Bool → ℤ → String → World D × Context × Bool
  unfolding login_age save
  set_login_session w c u remember_me minutes uid =
      let age = login_age c remember_me minutes in
      let crc = user_crc32 k u in
      let w' : World D = record w { crc = update w.crc u.username (some crc) } in
      let c' : Context = record c { session = login_values u crc uid age c.now; age = pos age } in
      if c.saves
      then (w', record (save c') { set_token = some (uid, pos age) }, true)
      else (w', c', false)

  check_password : User → String → Option Bool
  check_password u password =
      if u.password_hash == ""
      then some (password == u.password)
      else k.verify_hash u.password_hash password

  unfoldable pub log_in :
      World D → Context → String → String → Bool → ℤ → String → World D × Context × Reply
  unfolding check_password set_login_session
  log_in w c username password remember_me minutes uid =
      if not (username_matches username)
      then (w, c, json 400 false (lit "Please provide a valid username"))
      else elim (get_user_by_name D w username) [
        | none ↦ (w, c, json 500 false (lit "Invalid credentials"))
        | some u ↦ elim (check_password u password) [
          | none ↦ (w, c, json 500 false (lit "Cannot verify password"))
          | some correct ↦
              if not (username == u.username && correct)
              then (w, c, json 401 false (lit "Invalid credentials"))
              else if u.disabled
              then (w, c, json 401 false (tr "api.account_disabled"))
              else (let (w', c', fine) = set_login_session w c u remember_me minutes uid in
                  if fine
                  then (w', c', json 200 true (lit "Logged in successfully"))
                  else (w', c', json 500 false failure))
        ]
      ]

  unfoldable pub login :
      World D → Context → Option LoginBody → ℤ → String → World D × Context × LoginReply
  unfolding log_in
  login w c none minutes uid = (w, c, answers (json 400 false (lit "Bad post data")))
  login w c (some b) minutes uid = elim b.username [
    | none ↦ (w, c, panics)
    | some username ↦ elim b.password [
      | none ↦ (w, c, panics)
      | some password ↦ elim b.remember_me [
        | none ↦ (w, c, panics)
        | some remember_me ↦
            let (w', c', r) = log_in w c username password remember_me minutes uid in
            (w', c', answers r)
      ]
    ]
  ]

unfoldable pub logout : Config → Context → Context × Reply
logout cfg c = (clear_session c, redirect (String.◌++◌ cfg.base_path "/login"))
