-- ===== src/Examples/Ceremonies.antt =====
-- A registration of a second credential and two logins, by name and by a credential alone.
use wireguard_ui.Prelude.{
  String, true, false, ◌≡◌, ◌≢◌, refl, Option, none, some, [], ◌∷◌, ◌==◌, if◌then◌else◌, arith,
}
use wireguard_ui.Text.{trim_space, username_matches}
use wireguard_ui.Store.Table.{table, table-IsDriver, lookup, remove}
use wireguard_ui.Session.Values.{pos, Reply}
use wireguard_ui.Session.{current_user, is_admin}
use wireguard_ui.Users.{Credential, User, no_user, get_users, get_user_by_name, save_user}
use wireguard_ui.Users.Passkeys.Ceremony.{WebAuthn, Desk, get_entry, held_token}
use wireguard_ui.Users.Passkeys.Register.{passkey_finish_register}
use wireguard_ui.Users.Passkeys.Registered.{
  registered, challenge, IsRegistered, passkey_finish_register_once,
  passkey_finish_register-IsRegistered,
}
use wireguard_ui.Users.Passkeys.Assertion.{passkey_finish_login}
use wireguard_ui.Users.Passkeys.Started.{
  logged_in, IsWebAuthn, Starts, passkey_finish_login_once, passkey_finish_login-Starts,
}
use wireguard_ui.Examples.Sessions.{config, request}
use wireguard_ui.Examples.Accounts.{crypto, root_user}

abbrev phone : Credential
phone = record { id = "a1"; sign_count = 4 }

abbrev laptop : Credential
laptop = record { id = "c3"; sign_count = 0 }

abbrev by_search : Option User → Option (User × Credential)
by_search none = none
by_search (some u) = some (u, phone)

-- A library that takes one attestation and one assertion, and an id for a discoverable login.
abbrev library : WebAuthn
library = record {
  Data = String;
  Options = String;
  Body = String;
  begin_registration = λ u. some ("create", "sent");
  finish_registration = λ u sent body. if body == "attestation" then some laptop else none;
  begin_login = λ u. some ("get", "sent");
  begin_discoverable = some ("get", "sent");
  finish_login = λ u sent body. if body == "assertion" then some phone else none;
  finish_discoverable = λ look sent body. by_search (look body);
}

searched :
    (o : Option User) (u : User) (cred : Credential) → by_search o ≡ some (u, cred) → o ≡ some u
searched none u cred e = absurd (ground arith)
searched (some v) u cred e = ground arith

library-IsWebAuthn : IsWebAuthn library
library-IsWebAuthn = record {
  found = λ look sent body u cred e. (body, searched (look body) u cred e);
}

abbrev eve : User
eve = record no_user { username = "eve"; passkeys = phone ∷ [] }

abbrev desk : Desk (table User) library
desk = record {
  world = record { dir = ("eve", eve) ∷ ("root", root_user) ∷ []; crc = λ name. none };
  request = record request { session = record request.session { admin = some true } };
  held =
      ("passkey_reg_eve", "t1")
      ∷ ("passkey_login_eve", "t2")
      ∷ ("passkey_login_discoverable", "t3")
      ∷ [];
  saved_held = [];
  registrations = ("t1", "sent") ∷ [];
  logins = ("t2", "sent") ∷ ("t3", "sent") ∷ [];
}

abbrev registration : Desk (table User) library × Reply
registration =
    passkey_finish_register (table User) crypto config library true true desk "eve"
      (some ("laptop", "attestation"))

registration_done : registration.1 ≡ registered
unfolding passkey_finish_register lookup trim_space current_user is_admin save_user remove
registration_done = refl

eve_stored : get_user_by_name (table User) desk.world "eve" ≡ some eve
unfolding get_user_by_name lookup
eve_stored = refl

eve_pending :
    get_entry (challenge (table User) crypto config library true true desk "eve") desk.registrations
    ≡ some "sent"
unfolding get_entry held_token
eve_pending = refl

passkey_finish_register-IsRegistered_example :
    (u' : User) × (get_user_by_name (table User) registration.0.world "eve" ≡ some u')
    × IsRegistered eve laptop u'
    × ((other : String)
        → get_user_by_name (table User) registration.0.world other
          ≡ (if "eve" == other then some u' else get_user_by_name (table User) desk.world other))
passkey_finish_register-IsRegistered_example =
    passkey_finish_register-IsRegistered (table-IsDriver User) crypto config library true true desk
      "eve" "laptop" "attestation" eve "sent" laptop eve_stored refl eve_pending refl
      registration_done

-- A session that kept the challenge.
abbrev replayed : Desk (table User) library
replayed = record desk { registrations = registration.0.registrations }

passkey_finish_register_once_example :
    (passkey_finish_register
      (table User)
      crypto
      config
      library
      true
      true
      replayed
      "eve"
      (some ("again", "attestation"))).1
    ≢ registered
passkey_finish_register_once_example =
    passkey_finish_register_once (table User) crypto config library true true desk replayed "eve"
      "eve" (some ("laptop", "attestation")) (some ("again", "attestation")) registration_done refl
      refl

abbrev login_by_name : Desk (table User) library × Reply
login_by_name =
    passkey_finish_login (table User) crypto library true true desk
      (some ("eve", false, "assertion")) (pos 30) "t9"

login_by_name_done : login_by_name.1 ≡ logged_in
unfolding passkey_finish_login lookup trim_space username_matches
login_by_name_done = refl

passkey_finish_login_once_example :
    (passkey_finish_login
      (table User)
      crypto
      library
      true
      true
      (record desk { logins = login_by_name.0.logins })
      (some ("eve", true, "assertion"))
      (pos 30)
      "t10").1
    ≢ logged_in
passkey_finish_login_once_example =
    passkey_finish_login_once (table User) crypto library true true desk
      (record desk { logins = login_by_name.0.logins }) "eve" "eve" false true "assertion"
      "assertion" (pos 30) (pos 30) "t9" "t10" login_by_name_done refl refl

abbrev login_by_credential : Desk (table User) library × Reply
login_by_credential =
    passkey_finish_login (table User) crypto library true true desk (some ("", true, "a1")) (pos 30)
      "t9"

login_by_credential_done : login_by_credential.1 ≡ logged_in
unfolding passkey_finish_login lookup trim_space get_users
login_by_credential_done = refl

passkey_finish_login-Starts_example :
    (u : User) × Starts
      (table User)
      crypto
      library
      true
      true
      config
      3000
      desk
      true
      (pos 30)
      u
      login_by_credential
passkey_finish_login-Starts_example =
    passkey_finish_login-Starts (table User) crypto library true true library-IsWebAuthn config 3000
      desk (some ("", true, "a1")) (pos 30) "t9" refl login_by_credential_done
