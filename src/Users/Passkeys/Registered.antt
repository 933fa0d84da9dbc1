-- ===== src/Users/Passkeys/Registered.antt =====
-- What a registration of a credential leaves, and that its challenge serves once.
use wireguard_ui.Prelude.{
  String, Bool, true, false, not, ◌||◌, ◌≡◌, ◌≢◌, subst, ◌∙◌, Option, none, some, List, [], ◌∷◌,
  ◌++◌, ◌==◌, eq_refl, eq_iff, if◌then◌else◌, arith,
}
use wireguard_ui.Text.{trim_space}
use wireguard_ui.Store.{Driver, IsDriver}
use wireguard_ui.Session.Values.{Config, Reply, json, lit}
use wireguard_ui.Users.{Credential, User, Crypto, World, get_user_by_name, save_user}
use wireguard_ui.Users.Passkeys.{has_credential}
use wireguard_ui.Users.Passkeys.Ceremony.{
  WebAuthn, Desk, get_entry, get_entry-delete_entry, held_token, registration_key,
}
use wireguard_ui.Users.Passkeys.Register.{with_credential, passkey_finish_register}

abbrev pub registered : Reply
registered = json 200 true (lit "Passkey registered")

-- The record after a registration: the credentials before, and the new one if it was not among them.
abbrev pub IsRegistered : User → Credential → User → Type 0
IsRegistered u cred u' =
    (u'.passkeys
      ≡ (if has_credential cred.id u.passkeys then u.passkeys else u.passkeys ++ cred ∷ []))
    × (has_credential cred.id u'.passkeys ≡ not (cred.id == ""))
    × (u'.auth_epoch ≡ u.auth_epoch)
    × (u'.admin ≡ u.admin)
    × (u'.disabled ≡ u.disabled)

module _ (D : Driver User) (k : Crypto) (cfg : Config) (a : WebAuthn) (enabled ready : Bool) where
  -- The token of the challenge that the session holds for a user.
  abbrev pub challenge : Desk D a → String → String
  challenge d username = held_token (registration_key username) d.held

  ends :
      (d : Desk D a) (username : String) (body : Option (String × a.Body))
      → (passkey_finish_register D k cfg a enabled ready d username body).1 ≡ registered
      → get_entry
          (challenge d username)
          (passkey_finish_register D k cfg a enabled ready d username body).0.registrations
        ≡ none
  unfolding passkey_finish_register
  ends d username none done = ground arith
  ends d username (some (name, rest)) done =
      ground (arith, get_entry-delete_entry (challenge d username) d.registrations)

  expired :
      (e : Desk D a) (username : String) (body : Option (String × a.Body))
      → get_entry (challenge e username) e.registrations ≡ none
      → (passkey_finish_register D k cfg a enabled ready e username body).1 ≢ registered
  unfolding passkey_finish_register
  expired e username none gone done = ground arith
  expired e username (some (name, rest)) gone done = ground (arith, gone)

  -- After a registration that is answered with status 200, no request for whichever user, with
  -- whatever body and session, whose session names the same challenge is answered so, while the map
  -- of challenges is as the registration left it.
  pub passkey_finish_register_once :
      (d e : Desk D a) (username other : String) (body body' : Option (String × a.Body))
      → (passkey_finish_register D k cfg a enabled ready d username body).1 ≡ registered
      → e.registrations
        ≡ (passkey_finish_register D k cfg a enabled ready d username body).0.registrations
      → challenge e other ≡ challenge d username
      → (passkey_finish_register D k cfg a enabled ready e other body').1 ≢ registered
  passkey_finish_register_once d e username other body body' done same held =
      expired e other body' (rw held (rw same (ends d username body done)))

module _ {D : Driver User} (laws : IsDriver D) (k : Crypto) (cfg : Config) (a : WebAuthn) where
  has_credential-append :
      (id : String) (pks : List Credential) (pk : Credential)
      → has_credential id (pks ++ pk ∷ []) ≡ (has_credential id pks || has_credential id (pk ∷ []))
  unfolding has_credential
  has_credential-append id [] pk = ground arith
  has_credential-append id (x ∷ xs) pk = ground (arith, has_credential-append id xs pk)

  read-save_user :
      (w : World D) (u : User) (name : String)
      → (save_user D k u w).1 ≡ true
      → get_user_by_name D (save_user D k u w).0 name
        ≡ (if u.username == name then some u else get_user_by_name D w name)
  unfolding save_user get_user_by_name
  read-save_user w u name done = ground (arith, laws.read-write w.dir u.username u name)

  has_credential-given :
      (id : String) (pks : List Credential) → has_credential id pks ≡ true → (id == "") ≡ false
  unfolding has_credential
  has_credential-given id [] h = ground arith
  has_credential-given id (pk ∷ pks) h =
      ground (arith, eq_iff pk.id id, has_credential-given id pks)

  alone : (cred : Credential) → has_credential cred.id (cred ∷ []) ≡ not (cred.id == "")
  unfolding has_credential
  alone cred = ground (arith, eq_refl cred.id)

  username-with_credential :
      (cred : Credential) (name : String) (u : User)
      → (with_credential cred name u).username ≡ u.username
  unfolding with_credential
  username-with_credential cred name u = ground arith

  abbrev registered_user : User → Credential → String → User
  registered_user u cred name =
      if has_credential cred.id u.passkeys then u else with_credential cred name u

  registered_user-IsRegistered :
      (u : User) (cred : Credential) (name : String)
      → IsRegistered u cred (registered_user u cred name)
  unfolding with_credential
  registered_user-IsRegistered u cred name = ground (
    arith,
    has_credential-append cred.id u.passkeys cred,
    alone cred,
    has_credential-given cred.id u.passkeys,
  )

  module _ (enabled ready : Bool) (d : Desk D a) (username name : String) (rest : a.Body) (u : User)
      (sent : a.Data) (cred : Credential) (stored : get_user_by_name D d.world username ≡ some u)
      (named : u.username ≡ username)
      (pending : get_entry (challenge D k cfg a enabled ready d username) d.registrations
        ≡ some sent)
      (checks : a.finish_registration u sent rest ≡ some cred)
      (done : (passkey_finish_register D k cfg a enabled ready d username (some (name, rest))).1
        ≡ registered) where
    elsewhere :
        (other : String) → (username == other) ≡ true → get_user_by_name D d.world other ≡ some u
    elsewhere other e =
        subst (λ n. get_user_by_name D d.world n ≡ some u) ((eq_iff username other).0 e) stored

    world_after :
        (other : String)
        → get_user_by_name D
            (passkey_finish_register D k cfg a enabled ready d username (some (name, rest))).0.world
            other
          ≡ (if username == other
              then some (registered_user u cred (trim_space name))
              else get_user_by_name D d.world other)
    unfolding passkey_finish_register
    world_after other =
        let u' = with_credential cred (trim_space name) u in
        ground (
          arith,
          stored,
          named,
          pending,
          checks,
          username-with_credential cred (trim_space name) u,
          read-save_user d.world u' other,
          elsewhere other,
        )

    -- On a driver with the stated laws, let a user be stored under its name, the session name a
    -- pending challenge, and the library accept the body for it. When the registration is answered
    -- with status 200, the stored record has the credentials before in their order, followed by the
    -- new one unless its id was among them, its id is found there unless it is empty, the epoch and
    -- the roles of the user are the same, and so are the records of the other names.
    pub passkey_finish_register-IsRegistered :
        let w =
          (passkey_finish_register D k cfg a enabled ready d username
            (some (name, rest))).0.world in
        (u' : User) × (get_user_by_name D w username ≡ some u')
        × IsRegistered u cred u'
        × ((other : String)
            → get_user_by_name D w other
              ≡ (if username == other then some u' else get_user_by_name D d.world other))
    passkey_finish_register-IsRegistered = (
      registered_user u cred (trim_space name),
      world_after username ∙ rw (eq_refl username),
      registered_user-IsRegistered u cred (trim_space name),
      world_after,
    )
