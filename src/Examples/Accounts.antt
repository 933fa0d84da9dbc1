-- ===== src/Examples/Accounts.antt =====
-- Logins and changes of users over a database of two users.
use wireguard_ui.Prelude.{
  suc, ◌+◌, ◌*◌, eq_iff, String, ◌≡◌, ◌≢◌, refl, true, false, ◌&&◌, ◌⊎◌, inl, none, some, List, [],
  ◌∷◌, leb, arith, if◌then◌else◌, ◌==◌,
}
use wireguard_ui.Store.Table.{table, table-IsDriver, lookup, remove}
use wireguard_ui.Session.Values.{
  pos, uint32, Context, json, reauthenticate, lit, tr, failure, follow_up,
}
use wireguard_ui.Session.{is_valid_session, current_user}
use wireguard_ui.Users.{
  User, no_user, Crypto, World, user_crc32, snapshot, get_user_by_name,
  ensure_leaving_active_admin_when_disabling, save_user, ensure_can_demote, other_admins,
}
use wireguard_ui.Users.Handlers.{revoke_user_sessions, set_user_disabled, set_user_admin}
use wireguard_ui.Users.Login.{set_login_session, login_age}
use wireguard_ui.Users.Login.Window.{set_login_session_window}
use wireguard_ui.Users.Admins.{HasAdmin}
use wireguard_ui.Users.Keeps.{IsGoverned}
use wireguard_ui.Users.Run.{
  UserRequest, sets_disabled, sets_admin, serve, run, NoFailure, run-IsGoverned,
}
use wireguard_ui.Users.Revocation.{IsSessionOf, revoke_user_sessions_ends_sessions}
use wireguard_ui.Text.{trim_space, username_matches}
use wireguard_ui.Text.Username.{IsFileStem, username_matches-IsFileStem}
use wireguard_ui.Examples.Sessions.{config, alice, request}

-- A checksum that tells the states of a user apart.
abbrev pub crypto : Crypto
crypto = record {
  checksum = λ s. 2 * s.auth_epoch + (if s.disabled then 1 else 0);
  hash_password = λ p. some p;
  verify_hash = λ h p. some (h == p);
}

abbrev pub root_user : User
root_user = record no_user { username = "root"; password_hash = "r"; admin = true }

abbrev bob : User
bob = record no_user {
  username = "bob";
  password_hash = "b";
  passkeys = record { id = "key"; sign_count = 1 } ∷ [];
}

abbrev world : World (table User)
world = record {
  dir = ("root", root_user) ∷ ("bob", bob) ∷ [];
  crc = λ name. if name == "root" then some 0 else if name == "bob" then some 0 else none;
}

abbrev bobs : Context
bobs = record request { session = record alice { username = some "bob"; user_hash = uint32 0 } }

set_login_session_window_example :
    is_valid_session config
      (set_login_session (table User) crypto world request bob false (pos 30) "t2").0.crc
      (follow_up
        (set_login_session (table User) crypto world request bob false (pos 30) "t2").1
        3000)
    ≡ (leb 2000 3000
        && leb 3000 (2000 + login_age request false (pos 30))
        && leb 3000 (2000 + 7_776_000))
set_login_session_window_example =
    set_login_session_window (table User) crypto config world request bob false (pos 30) "t2" 3000
      refl refl

bob_matches : username_matches "bob" ≡ true
unfolding username_matches
bob_matches = refl

username_matches-IsFileStem_example : IsFileStem "bob"
username_matches-IsFileStem_example = username_matches-IsFileStem "bob" bob_matches

-- The change of a database of these two users leaves it well-formed.
world_keyed : (name : String) (u : User) → lookup world.dir name ≡ some u → u.username ≡ name
unfolding lookup
world_keyed name u e = ground (arith, eq_iff "root" name, eq_iff "bob" name)

world-IsGoverned : IsGoverned (table User) world.dir
unfolding HasAdmin lookup
world-IsGoverned = record {
  keyed = record { at = world_keyed };
  governed = ("root", root_user, refl, refl);
}

abbrev promotion : UserRequest
promotion = sets_admin (some (record { username = "bob"; flag = true }))

abbrev demotion : UserRequest
demotion = sets_admin (some (record { username = "root"; flag = false }))

abbrev disabling : UserRequest
disabling = sets_disabled (some (record { username = "bob"; flag = true }))

abbrev history : List (Context × UserRequest)
history = (request, promotion) ∷ (request, demotion) ∷ (request, disabling) ∷ []

abbrev promoted : World (table User)
promoted = (serve (table User) crypto config world (request, promotion)).0

abbrev demoted : World (table User)
demoted = (serve (table User) crypto config promoted (request, demotion)).0

promotion_answer :
    (serve (table User) crypto config world (request, promotion)).2
    ≡ json 200 true (lit "User role updated")
unfolding serve set_user_admin trim_space username_matches get_user_by_name lookup current_user
    save_user
promotion_answer = refl

demotion_answer :
    (serve (table User) crypto config promoted (request, demotion)).2
    ≡ json 200 true (lit "User role updated")
unfolding serve set_user_admin trim_space username_matches get_user_by_name lookup current_user
    save_user remove ensure_can_demote other_admins
demotion_answer = refl

-- The last active administrator cannot be disabled.
disabling_answer :
    (serve (table User) crypto config demoted (request, disabling)).2 ≡ json 400 false failure
unfolding serve set_user_disabled trim_space username_matches get_user_by_name lookup set_user_admin
    current_user save_user remove ensure_can_demote other_admins
    ensure_leaving_active_admin_when_disabling
disabling_answer = refl

history-NoFailure : NoFailure (table User) crypto config world history
history-NoFailure = (
  ground (arith, promotion_answer),
  (ground (arith, demotion_answer), (ground (arith, disabling_answer), tt)),
)

run-IsGoverned_example : IsGoverned (table User) (run (table User) crypto config world history).dir
run-IsGoverned_example =
    run-IsGoverned (table-IsDriver User) crypto config world history world-IsGoverned
      history-NoFailure

found_bob : get_user_by_name (table User) world (trim_space "bob") ≡ some bob
unfolding get_user_by_name lookup trim_space
found_bob = refl

trimmed_bob : "bob" ≡ trim_space "bob"
unfolding trim_space
trimmed_bob = refl

revoked_differs :
    user_crc32 crypto (record bob { auth_epoch = suc bob.auth_epoch }) ≢ user_crc32 crypto bob
unfolding user_crc32 snapshot
revoked_differs e = ground arith

bobs-IsSessionOf_trimmed : IsSessionOf (trim_space "bob") (user_crc32 crypto bob) bobs
unfolding trim_space user_crc32 snapshot
bobs-IsSessionOf_trimmed = record { named = refl; hashed = refl }

revoke_answer :
    ((revoke_user_sessions (table User) crypto config world request (some "bob")).2
      ≡ json 200 true (tr "api.user_sessions_revoked"))
    ⊎ ((revoke_user_sessions (table User) crypto config world request (some "bob")).2
        ≡ reauthenticate (tr "api.session_revoked_reauth"))
unfolding revoke_user_sessions trim_space username_matches get_user_by_name lookup save_user
    current_user
revoke_answer = inl refl

revoke_user_sessions_ends_sessions_example :
    is_valid_session config
      (revoke_user_sessions (table User) crypto config world request (some "bob")).0.crc
      bobs
    ≡ false
revoke_user_sessions_ends_sessions_example =
    revoke_user_sessions_ends_sessions (table User) crypto config world request bobs "bob" bob refl
      found_bob trimmed_bob revoked_differs revoke_answer bobs-IsSessionOf_trimmed
