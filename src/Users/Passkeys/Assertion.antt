-- ===== src/Users/Passkeys/Assertion.antt =====
-- `PasskeyBeginLogin` and `PasskeyFinishLogin` of handler/passkeys.go. `enabled` is `TOTPEnabled` of
-- the settings, `ready` whether `webauthnForRequest` finds a configuration.
use wireguard_ui.Prelude.{
  String, Bool, true, false, not, ◌⊎◌, inl, inr, Option, none, some, List, [], ◌∷◌, ◌==◌,
  if◌then◌else◌,
}
use wireguard_ui.Text.{trim_space, username_matches}
use wireguard_ui.Store.{Driver}
use wireguard_ui.Session.Values.{ℤ, Reply, json, lit, failure}
use wireguard_ui.Users.{Credential, User, Crypto, World, get_users, get_user_by_name}
use wireguard_ui.Users.Login.{set_login_session}
use wireguard_ui.Users.Passkeys.{has_credential}
use wireguard_ui.Users.Passkeys.Ceremony.{
  WebAuthn, Desk, DeskReply, answers, offers, save_desk, get_entry, delete_entry, held_token,
  login_key, discoverable_key,
}

-- The loops of `discoverableUserLookup`.
unfoldable pub find_owner : String → List User → Option User
unfolding has_credential
find_owner id [] = none
find_owner id (u ∷ us) =
    let rest = find_owner id us in if has_credential id u.passkeys then some u else rest

module _ (D : Driver User) (k : Crypto) (a : WebAuthn) (enabled ready : Bool) where
  unfoldable pub discoverable_user_lookup : World D → String → Option User
  unfolding get_users find_owner
  discoverable_user_lookup w id = elim (get_users D w) [ none ↦ none | some us ↦ find_owner id us ]

  -- The session data under a new token.
  unfoldable pub open_login :
      Desk D a → String → String → a.Options → a.Data → Desk D a × DeskReply D a
  unfolding save_desk
  open_login d key token options sent = (
    save_desk D a (record d { logins = (token, sent) ∷ d.logins; held = (key, token) ∷ d.held }),
    offers options,
  )

  -- The body is its field `username`, empty where it is absent or no text, or `none` where it does
  -- not bind.
  unfoldable pub passkey_begin_login : Desk D a → Option String → String → Desk D a × DeskReply D a
  unfolding open_login get_user_by_name
  passkey_begin_login d none token = (
    d,
    answers (
        if enabled
        then json 400 false (lit "Bad post data")
        else json 403 false (lit "Passkeys are disabled")),
  )
  passkey_begin_login d (some sent) token =
      let username = trim_space sent in
      if not enabled
      then (d, answers (json 403 false (lit "Passkeys are disabled")))
      else if not ready
      then (d, answers (json 500 false failure))
      else if username == ""
      then elim a.begin_discoverable [
        | none ↦ (d, answers (json 500 false failure))
        | some (options, data') ↦ open_login d discoverable_key token options data'
      ]
      else if not (username_matches username)
      then (d, answers (json 400 false (lit "Please provide a valid username")))
      else elim (get_user_by_name D d.world username) [
        | none ↦ (d, answers (json 401 false (lit "Invalid credentials")))
        | some u ↦ elim u.passkeys [
          | [] ↦ (d, answers (json 400 false (lit "No passkey registered for this user")))
          | pk ∷ pks ↦ elim (a.begin_login u) [
            | none ↦ (d, answers (json 500 false failure))
            | some (options, data') ↦ open_login d (login_key username) token options data'
          ]
        ]
      ]

  -- The session data under the token that the session holds, or the refusal.
  unfoldable pub pending_login : Desk D a → String → Reply ⊎ (String × a.Data)
  unfolding held_token get_entry
  pending_login d key =
      let token = held_token key d.held in
      if token == ""
      then inl (json 400 false (lit "Login session not found"))
      else elim (get_entry token d.logins) [
        | none ↦ inl (json 400 false (lit "Login session expired"))
        | some sent ↦ inr (token, sent)
      ]

  -- The new session with the credential's id, after which the challenge's two tokens go.
  unfoldable pub complete_login :
      Desk D a → String → String → User → Credential → Bool → ℤ → String → Desk D a × Reply
  unfolding set_login_session delete_entry save_desk
  complete_login d key token u cred remember_me minutes uid =
      let (w, c, done) = set_login_session D k d.world d.request u remember_me minutes uid in
      let d' : Desk D a = record d {
        world = w;
        request = c;
        saved_held = if done then d.held else d.saved_held;
      } in
      if not done then (d', json 500 false failure) else (
        save_desk D a (record d' {
          request = record c {
            session = record c.session {
              pk_login_cred = if cred.id == "" then none else some cred.id;
            };
          };
          held = delete_entry key d'.held;
          logins = delete_entry token d'.logins;
        }),
        json 200 true (lit "Logged in successfully"),
      )

  unfoldable pub finish_discoverable_login :
      Desk D a → Bool → a.Body → ℤ → String → Desk D a × Reply
  unfolding pending_login discoverable_user_lookup complete_login
  finish_discoverable_login d remember_me body minutes uid =
      elim (pending_login d discoverable_key) [
        | inl refusal ↦ (d, refusal)
        | inr (token, sent) ↦
            elim (a.finish_discoverable (discoverable_user_lookup d.world) sent body) [
              | none ↦ (d, json 401 false (lit "Invalid passkey"))
              | some (u, cred) ↦
                  if u.disabled
                  then (d, json 401 false (lit "Cuenta deshabilitada"))
                  else complete_login d discoverable_key token u cred remember_me minutes uid
            ]
      ]

  unfoldable pub finish_login_of : Desk D a → String → Bool → a.Body → ℤ → String → Desk D a × Reply
  unfolding pending_login get_user_by_name complete_login
  finish_login_of d username remember_me body minutes uid =
      if not (username_matches username)
      then (d, json 400 false (lit "Please provide a valid username"))
      else elim (get_user_by_name D d.world username) [
        | none ↦ (d, json 401 false (lit "Invalid credentials"))
        | some u ↦
            if u.disabled
            then (d, json 401 false (lit "Cuenta deshabilitada"))
            else elim (pending_login d (login_key username)) [
              | inl refusal ↦ (d, refusal)
              | inr (token, sent) ↦ elim (a.finish_login u sent body) [
                | none ↦ (d, json 401 false (lit "Invalid passkey"))
                | some cred ↦
                    complete_login d (login_key username) token u cred remember_me minutes uid
              ]
            ]
      ]

  -- The body is its fields `username` and `rememberMe` and the whole, or `none` where it is no JSON.
  unfoldable pub passkey_finish_login :
      Desk D a → Option (String × Bool × a.Body) → ℤ → String → Desk D a × Reply
  unfolding finish_discoverable_login finish_login_of
  passkey_finish_login d body minutes uid =
      if not enabled then (d, json 403 false (lit "Passkeys are disabled")) else elim body [
        | none ↦ (d, json 400 false (lit "Bad post data"))
        | some (sent, remember_me, assertion) ↦
            let username = trim_space sent in
            if not ready
            then (d, json 500 false failure)
            else if username == ""
            then finish_discoverable_login d remember_me assertion minutes uid
            else finish_login_of d username remember_me assertion minutes uid
      ]
