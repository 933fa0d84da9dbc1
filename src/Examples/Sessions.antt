-- ===== src/Examples/Sessions.antt =====
-- The guards and the rate limiter at concrete requests.
use wireguard_ui.Prelude.{
  ℕ, ◌+◌, ◌≤◌, String, ◌≡◌, refl, true, false, ◌&&◌, Option, none, some, List, [], ◌∷◌, leb, length,
  arith, if◌then◌else◌, ◌==◌,
}
use wireguard_ui.Session.Values.{pos, int, uint32, Session, Context, Config, json, lit, follow_up}
use wireguard_ui.Session.{
  Handler, is_valid_session, touch_session_idle, effective_idle_seconds, get_created_at,
  do_refresh_session, valid_session, is_in_time, is_known_user, token_matches, get_updated_at,
  is_android_client, or_day, get_max_age, username_value, get_user_hash, needs_admin,
  refresh_session, is_admin,
}
use wireguard_ui.Text.{has_suffix, equal_fold, trim_space}
use wireguard_ui.Session.Lifetime.{touch_session_idle_window, here, visit, refresh, Browse-expires}
use wireguard_ui.Session.Guards.{admin_only, refresh_session_idle}
use wireguard_ui.Push.{new_rate_limiter, recent, allowed_times}
use wireguard_ui.Push.Window.{allow_bounded}

abbrev pub config : Config
config = record { disable_login = false; session_max_duration = 7_776_000; base_path = "/wg" }

abbrev pub alice : Session
alice = record {
  username = some "alice";
  user_hash = uint32 7;
  admin = some false;
  session_token = some "t1";
  max_age = int (pos 3600);
  created_at = some 1000;
  updated_at = some 1000;
  pk_login_cred = none;
}

abbrev pub request : Context
request = record {
  session = alice;
  age = pos 3600;
  saved = alice;
  saved_age = pos 3600;
  token = some "t1";
  set_token = none;
  saves = true;
  client_header = "";
  is_get = true;
  path = "/wg/status";
  url = "/wg/status";
  now = 2000;
}

abbrev cache : String → Option ℕ
cache name = if name == "alice" then some 7 else none

request_valid : is_valid_session config cache request ≡ true
unfolding is_valid_session is_in_time is_known_user token_matches get_created_at get_updated_at
    effective_idle_seconds is_android_client or_day get_max_age username_value get_user_hash
    equal_fold trim_space
request_valid = refl

touch_session_idle_window_example :
    is_valid_session config cache (follow_up (touch_session_idle config request) 5600) ≡ (
      leb 2000 5600
      && leb 5600 (2000 + effective_idle_seconds config request)
      && leb 5600 (get_created_at config alice + 7_776_000))
touch_session_idle_window_example =
    touch_session_idle_window config cache request 5600 refl refl request_valid

Browse-expires_example :
    is_valid_session config cache (
      follow_up
        (touch_session_idle config (follow_up (do_refresh_session config request) 90_000))
        7_800_000)
    ≡ false
Browse-expires_example =
    Browse-expires config cache request
      (touch_session_idle config (follow_up (do_refresh_session config request) 90_000)) 1000
      7_800_000 refl refl refl (visit 90_000 (refresh here)) (omega arith)

abbrev answer : String → Handler
answer s c = (c, json 200 true (lit s))

request_unprivileged : (is_valid_session config cache request && is_admin config request) ≡ false
unfolding is_admin
request_unprivileged = rw request_valid refl

admin_only_example :
    valid_session config cache (needs_admin config (answer "one")) request
    ≡ valid_session config cache (needs_admin config (answer "two")) request
admin_only_example =
    admin_only config cache (answer "one") (answer "two") request refl request_unprivileged

status_is_page : has_suffix "/wg/status" "/logout" ≡ false
unfolding has_suffix
status_is_page = refl

refresh_session_idle_example :
    valid_session config cache (refresh_session config (answer "one")) request
    ≡ valid_session config cache (answer "one") request
refresh_session_idle_example =
    refresh_session_idle config cache (answer "one") request status_is_page

abbrev calls : List (String × ℕ)
calls = ("a", 5) ∷ ("b", 6) ∷ ("a", 7) ∷ ("a", 8) ∷ []

allow_bounded_example :
    length (recent 60_000_000_000 9 (allowed_times (new_rate_limiter 2) "a" calls)) ≤ 2
allow_bounded_example =
    allow_bounded 2 9 "a" calls
      (omega arith, (omega arith, (omega arith, (omega arith, omega arith))))
