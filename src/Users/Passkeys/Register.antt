-- ===== src/Users/Passkeys/Register.antt =====
-- `PasskeyBeginRegister` and `PasskeyFinishRegister` of handler/passkeys.go. `enabled` is
-- `TOTPEnabled` of the settings, `ready` whether `webauthnForRequest` finds a configuration.
use wireguard_ui.Prelude.{
  String, Bool, true, false, not, ◌&&◌, ◌⊎◌, inl, inr, Option, none, some, [], ◌∷◌, ◌++◌, ◌==◌,
  if◌then◌else◌,
}
use wireguard_ui.Text.{trim_space}
use wireguard_ui.Store.{Driver}
use wireguard_ui.Session.Values.{Config, Reply, json, lit, failure, uint32}
use wireguard_ui.Session.{current_user, is_admin}
use wireguard_ui.Users.{
  Credential, User, Crypto, put_label, user_crc32, get_user_by_name, save_user,
}
use wireguard_ui.Users.Passkeys.{has_credential}
use wireguard_ui.Users.Passkeys.Ceremony.{
  WebAuthn, Desk, DeskReply, answers, offers, save_desk, get_entry, delete_entry, held_token,
  registration_key,
}

-- The record with a credential that it does not have yet, and its name if one is given.
unfoldable pub with_credential : Credential → String → User → User
unfolding put_label
with_credential cred name u =
    let u' : User = record u { passkeys = u.passkeys ++ cred ∷ [] } in
    if name == ""
    then u'
    else record u' { passkey_labels = put_label cred.id name u'.passkey_labels }

module _ (D : Driver User) (k : Crypto) (cfg : Config) (a : WebAuthn) (enabled ready : Bool) where
  -- The tests that both requests begin with.
  unfoldable pub find_registrant : Desk D a → String → Reply ⊎ User
  unfolding get_user_by_name
  find_registrant d username =
      if not enabled
      then inl (json 403 false (lit "Passkeys are disabled in settings"))
      else if username == ""
      then inl (json 400 false (lit "Missing username"))
      else if not (is_admin cfg d.request) && not (username == current_user cfg d.request)
      then inl (json 403 false (lit "Not allowed"))
      else elim (get_user_by_name D d.world username) [
        | none ↦ inl (json 404 false (lit "User not found"))
        | some u ↦ inr u
      ]

  -- `token` is the new one of `xid.New`.
  unfoldable pub passkey_begin_register : Desk D a → String → String → Desk D a × DeskReply D a
  unfolding find_registrant save_desk
  passkey_begin_register d username token = elim (find_registrant d username) [
    | inl refusal ↦ (d, answers refusal)
    | inr u ↦
        if not ready then (d, answers (json 500 false failure)) else elim (a.begin_registration u) [
          | none ↦ (d, answers (json 500 false failure))
          | some (options, sent) ↦ (
            save_desk D a (record d {
              registrations = (token, sent) ∷ d.registrations;
              held = (registration_key username, token) ∷ d.held;
            }),
            offers options,
          )
        ]
  ]

  -- The session's values of the user who registers for himself.
  abbrev pub signed : Desk D a → String → User → Desk D a
  signed d username u =
      if username == current_user cfg d.request
      then record d {
        request = record d.request {
          session = record d.request.session {
            username = some u.username;
            user_hash = uint32 (user_crc32 k u);
            admin = some u.admin;
          };
        };
      }
      else d

  -- The end of a registration: its two tokens go.
  unfoldable pub end_registration : Desk D a → String → String → Desk D a
  unfolding delete_entry save_desk
  end_registration d username token = save_desk D a (record d {
    held = delete_entry (registration_key username) d.held;
    registrations = delete_entry token d.registrations;
  })

  unfoldable pub add_credential :
      Desk D a → String → String → String → User → Credential → Desk D a × Reply
  unfolding has_credential with_credential save_user end_registration
  add_credential d username token name u cred =
      if has_credential cred.id u.passkeys
      then (end_registration d username token, json 200 true (lit "Passkey registered"))
      else (let u' = with_credential cred name u in
          let (w, saved) = save_user D k u' d.world in
          let d' : Desk D a = record d { world = w } in
          if saved
          then (
            end_registration (signed d' username u') username token,
            json 200 true (lit "Passkey registered"),
          )
          else (d', json 500 false failure))

  -- The body is its field `credential_name`, empty where there is none, and the rest, or `none`
  -- where it cannot be read.
  unfoldable pub passkey_finish_register :
      Desk D a → String → Option (String × a.Body) → Desk D a × Reply
  unfolding find_registrant held_token get_entry add_credential
  passkey_finish_register d username body = elim (find_registrant d username) [
    | inl refusal ↦ (d, refusal)
    | inr u ↦ elim body [
      | none ↦ (d, json 400 false (lit "Cannot read request body"))
      | some (name, rest) ↦
          let token = held_token (registration_key username) d.held in
          if not ready
          then (d, json 500 false failure)
          else if token == ""
          then (d, json 400 false (lit "Registration session not found"))
          else elim (get_entry token d.registrations) [
            | none ↦ (d, json 400 false (lit "Registration session expired"))
            | some sent ↦ elim (a.finish_registration u sent rest) [
              | none ↦ (d, json 400 false failure)
              | some cred ↦ add_credential d username token (trim_space name) u cred
            ]
          ]
    ]
  ]
