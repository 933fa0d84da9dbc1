-- ===== src/Examples/Credentials.antt =====
-- The removal of one of two passkeys by an administrator.
use wireguard_ui.Prelude.{
  String, ◌≡◌, ◌≢◌, ◌⊎◌, inl, refl, true, false, Option, none, some, [], ◌∷◌, arith,
}
use wireguard_ui.Text.{trim_space, username_matches}
use wireguard_ui.Store.Table.{table, table-IsDriver, lookup}
use wireguard_ui.Session.Values.{uint32, Context, json, reauthenticate, tr}
use wireguard_ui.Session.{is_valid_session, current_user, is_admin}
use wireguard_ui.Users.{User, World, no_user, user_crc32, snapshot, get_user_by_name, save_user}
use wireguard_ui.Users.Revocation.{IsSessionOf}
use wireguard_ui.Users.Passkeys.{CredentialBody, passkey_remove}
use wireguard_ui.Users.Passkeys.Removed.{removed, passkey_remove_ends}
use wireguard_ui.Examples.Sessions.{config, request}
use wireguard_ui.Examples.Accounts.{crypto, root_user}

abbrev eve : User
eve = record no_user {
  username = "eve";
  passkeys = record { id = "a1"; sign_count = 4 } ∷ record { id = "b2"; sign_count = 9 } ∷ [];
  passkey_labels = ("a1", "phone") ∷ [];
}

abbrev world : World (table User)
world = record { dir = ("eve", eve) ∷ ("root", root_user) ∷ []; crc = λ name. none }

abbrev body : CredentialBody
body = record { username = "eve"; credential_id = "a1"; name = "" }

abbrev admins : Context
admins = record request { session = record request.session { admin = some true } }

abbrev eves : Context
eves = record request {
  session = record request.session {
    username = some "eve";
    user_hash = uint32 (user_crc32 crypto eve);
  };
}

-- An id that is in its form already.
abbrev recode : String → Option String
recode s = some s

recoded : recode (trim_space body.credential_id) ≡ some "a1"
unfolding trim_space
recoded = refl

found : get_user_by_name (table User) world (trim_space body.username) ≡ some eve
unfolding trim_space get_user_by_name lookup
found = refl

named : eve.username ≡ trim_space body.username
unfolding trim_space
named = refl

differs : user_crc32 crypto (removed "a1" eve) ≢ user_crc32 crypto eve
unfolding user_crc32 snapshot
differs e = ground arith

answer :
    ((passkey_remove (table User) crypto config recode true world admins (some body)).2
      ≡ json 200 true (tr "api.passkey_removed_sessions_revoked"))
    ⊎ ((passkey_remove (table User) crypto config recode true world admins (some body)).2
        ≡ reauthenticate (tr "api.passkey_removed_reauth"))
unfolding passkey_remove trim_space username_matches lookup save_user current_user is_admin
answer = inl refl

eves-IsSessionOf : IsSessionOf (trim_space body.username) (user_crc32 crypto eve) eves
unfolding trim_space
eves-IsSessionOf = record { named = refl; hashed = refl }

passkey_remove_ends_example :
    (get_user_by_name
        (table User)
        (passkey_remove (table User) crypto config recode true world admins (some body)).0
        (trim_space body.username)
      ≡ some (removed "a1" eve))
    × (is_valid_session config
          (passkey_remove (table User) crypto config recode true world admins (some body)).0.crc
          eves
        ≡ false)
passkey_remove_ends_example =
    passkey_remove_ends (table User) crypto config recode (table-IsDriver User) world admins eves
      body "a1" eve refl recoded found named differs answer eves-IsSessionOf
