-- ===== src/Session.antt =====
-- handler/session.go, and `setLoginSession` of handler/passkeys.go: the values of the session
-- cookie, the checks on them and the handlers' changes to them. A time is a count of seconds since
-- 1970; the sums of times stay below 2^63 and are not wrapped.
pub mod Values
pub mod Lifetime
pub mod Guards
use Prim.Native.String
use wireguard_ui.Prelude.{
  ℕ, zero, suc, ◌+◌, ◌-◌, ◌*◌, String, Bool, true, false, not, ◌&&◌, ◌||◌, Option, none, some, ◌==◌,
  ltb, nat_eq, if◌then◌else◌,
}
use wireguard_ui.Text.{trim_space, equal_fold, has_suffix}
use wireguard_ui.Session.Values.{
  ℤ, pos, negsuc, Session, Context, Config, Reply, redirect, MaxAge, HashValue, uint32, other, nil,
  int, int32, int64, float64, text_or, number_or,
}

abbrev pub android_companion_idle_min_seconds : ℕ
android_companion_idle_min_seconds = 15 * 24 * 3600

unfoldable pub is_android_client : Context → Bool
is_android_client c = equal_fold (trim_space c.client_header) "android"

unfoldable pub get_max_age : Config → Session → ℤ
get_max_age cfg s =
    if cfg.disable_login
    then pos 0
    else elim s.max_age [ int n ↦ n | int32 n ↦ n | int64 n ↦ n | float64 n ↦ n | nil ↦ pos 0 ]

unfoldable pub get_created_at : Config → Session → ℕ
get_created_at cfg s = if cfg.disable_login then 0 else number_or 0 s.created_at

unfoldable pub get_updated_at : Config → Session → ℕ
get_updated_at cfg s = if cfg.disable_login then 0 else number_or 0 s.updated_at

unfoldable pub get_user_hash : Config → Session → ℕ
get_user_hash cfg s = if cfg.disable_login then 0 else elim s.user_hash [ uint32 n ↦ n | other ↦ 0 ]

-- `if maxAge <= 0 { maxAge = 86400 }`
unfoldable pub or_day : ℤ → ℕ
or_day (pos zero) = 86400
or_day (pos (suc n)) = suc n
or_day (negsuc n) = 86400

unfoldable pub effective_idle_seconds : Config → Context → ℕ
unfolding get_max_age or_day
effective_idle_seconds cfg c =
    let v = or_day (get_max_age cfg c.session) in
    if is_android_client c && ltb v android_companion_idle_min_seconds
    then android_companion_idle_min_seconds
    else v

unfoldable pub effective_idle_seconds_for_cookie : Config → Context → ℕ
unfolding get_max_age or_day
effective_idle_seconds_for_cookie cfg c =
    let max_age = or_day (get_max_age cfg c.session) in
    if is_android_client c && ltb max_age android_companion_idle_min_seconds
    then android_companion_idle_min_seconds
    else max_age

unfoldable pub session_passkey_credential_id : Option Session → String
session_passkey_credential_id none = ""
session_passkey_credential_id (some s) = trim_space (text_or "" s.pk_login_cred)

-- `sess.Values["session_token"] != cookie.Value`, negated: an absent value differs from any text.
abbrev pub holds_token : Option String → String → Bool
holds_token none cookie = false
holds_token (some t) cookie = t == cookie

-- Whether the request has the cookie and it is the session's.
unfoldable pub token_matches : Context → Bool
token_matches c = elim c.token [ none ↦ false | some t ↦ holds_token c.session.session_token t ]

-- `fmt.Sprintf("%s", sess.Values["username"])`
unfoldable pub username_value : Session → String
username_value s = text_or "%!s(<nil>)" s.username

unfoldable pub is_known_user : Config → (String → Option ℕ) → Session → Bool
unfolding get_user_hash username_value
is_known_user cfg crc s = elim (crc (username_value s)) [
  | none ↦ false
  | some h ↦ nat_eq (get_user_hash cfg s) h
]

unfoldable pub is_in_time : Config → Context → Bool
unfolding get_created_at get_updated_at
is_in_time cfg c =
    let updated_at = get_updated_at cfg c.session in
    not (
      ltb c.now updated_at
      || ltb (updated_at + effective_idle_seconds cfg c) c.now
      || ltb (get_created_at cfg c.session + cfg.session_max_duration) c.now)

unfoldable pub is_valid_session : Config → (String → Option ℕ) → Context → Bool
unfolding token_matches is_in_time is_known_user
is_valid_session cfg crc c =
    if cfg.disable_login
    then true
    else token_matches c && is_in_time cfg c && is_known_user cfg crc c.session

-- `sess.Save`: the browser gets the values of the request, unless saving fails.
unfoldable pub save : Context → Context
save c = if c.saves then record c { saved = c.session; saved_age = c.age } else c

-- `http.Cookie` with the request's token, and `SetCookie`
unfoldable pub resend_token : ℤ → Context → Context
resend_token age c = record c { set_token = some (text_or "" c.token, age) }

unfoldable pub touch_session_idle : Config → Context → Context
unfolding token_matches save resend_token
touch_session_idle cfg c =
    if token_matches c
    then (let age = pos (effective_idle_seconds_for_cookie cfg c) in
        let c' =
          save (record c { session = record (c.session) { updated_at = some c.now }; age = age }) in
        if c.saves then resend_token age c' else c')
    else c

-- `expiration` of `doRefreshSession`: it is used where `max_age` is positive.
unfoldable pub is_due : Config → Context → ℕ → Bool
unfolding get_created_at get_updated_at
is_due cfg c max_age =
    let updated_at = get_updated_at cfg c.session in
    not (
      ltb c.now updated_at
      || ltb (updated_at + max_age) c.now
      || ltb (c.now - updated_at) 86400
      || ltb (get_created_at cfg c.session + cfg.session_max_duration) c.now)

unfoldable pub refresh_with : Config → Context → ℕ → Context
unfolding is_due token_matches save resend_token
refresh_with cfg c max_age =
    if token_matches c && is_due cfg c max_age
    then resend_token (pos max_age) (
        save (record c {
          session = record (c.session) { updated_at = some c.now };
          age = pos max_age;
        }))
    else c

unfoldable pub do_refresh_session : Config → Context → Context
unfolding refresh_with get_max_age
do_refresh_session cfg c = if cfg.disable_login then c else elim (get_max_age cfg c.session) [
  | pos n ↦ if nat_eq n 0 then c else refresh_with cfg c n
  | negsuc n ↦ c
]

unfoldable pub current_user : Config → Context → String
unfolding username_value
current_user cfg c = if cfg.disable_login then "" else username_value c.session

-- `fmt.Sprintf("%t", v) == "true"`, where `v` is a Boolean or absent
unfoldable pub is_admin : Config → Context → Bool
is_admin cfg c =
    if cfg.disable_login then true else elim c.session.admin [ none ↦ false | some b ↦ b ]

unfoldable pub set_user : String → Bool → ℕ → Context → Context
unfolding save
set_user username admin crc c = save (record c {
  session = record (c.session) {
    username = some username;
    user_hash = uint32 crc;
    admin = some admin;
  };
})

-- The user's checksum is stored as an `int`, which `getUserHash` does not read.
unfoldable pub clear_session : Context → Context
unfolding save resend_token
clear_session c = resend_token (negsuc 0) (
    save (record c {
      session = record (c.session) {
        pk_login_cred = none;
        username = some "";
        user_hash = other;
        admin = some false;
        session_token = some "";
        max_age = int (negsuc 0);
      };
      age = negsuc 0;
    }))

-- The guards around a handler.
abbrev pub Handler : Type 0
Handler = Context → Context × Reply

unfoldable pub valid_session : Config → (String → Option ℕ) → Handler → Handler
valid_session cfg crc next c =
    if cfg.disable_login
    then next c
    else if is_valid_session cfg crc c
    then next (if has_suffix c.path "/logout" then c else touch_session_idle cfg c)
    else if c.is_get
    then (c, redirect (String.◌++◌ cfg.base_path (String.◌++◌ "/login?next=" c.url)))
    else (c, redirect (String.◌++◌ cfg.base_path "/login"))

unfoldable pub refresh_session : Config → Handler → Handler
refresh_session cfg next c = next (do_refresh_session cfg c)

unfoldable pub needs_admin : Config → Handler → Handler
unfolding is_admin
needs_admin cfg next c =
    if is_admin cfg c then next c else (c, redirect (String.◌++◌ cfg.base_path "/"))
