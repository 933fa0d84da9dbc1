-- ===== src/Users/Passkeys.antt =====
-- The requests of handler/passkeys.go that remove and rename stored credentials, and
-- `ClearStoredPasskeysForAllUsers`. `enabled` is `TOTPEnabled` of the settings.
pub mod Removed
pub mod Cleared
pub mod Ceremony
pub mod Register
pub mod Assertion
pub mod Registered
pub mod Started
use wireguard_ui.Prelude.{
  suc, String, Bool, true, false, not, ◌&&◌, ◌||◌, Option, none, some, List, [], ◌∷◌, ◌==◌, ◌≡◌,
  ◌≢◌, ◌⊎◌, inl, inr, refl, eq_refl, if◌then◌else◌, arith,
}
use wireguard_ui.Text.{trim_space}
use wireguard_ui.Store.{Driver, IsDriver}
use wireguard_ui.Session.Values.{Config, Context, Reply, json, reauthenticate, lit, tr, failure}
use wireguard_ui.Session.{current_user, is_admin, set_user, clear_session, is_valid_session}
use wireguard_ui.Users.{
  Credential, User, Crypto, World, put_label, user_crc32, get_users, get_user_by_name, save_user,
}
use wireguard_ui.Users.Handlers.{Outcome, is_bad_name}
use wireguard_ui.Users.Revocation.{IsSessionOf, stale, crc_of_save}

pub record CredentialBody : Type 0 where
  pub username : String
  pub credential_id : String
  pub name : String

-- The loop of `PasskeyRemove`: credentials with an empty id stay.
unfoldable pub drop_credential : String → List Credential → List Credential
drop_credential id [] = []
drop_credential id (pk ∷ pks) =
    let rest = drop_credential id pks in
    if not (pk.id == "") && pk.id == id then rest else pk ∷ rest

-- The loop of `PasskeyRename`; `PasskeyRemove` tells by the lengths whether it dropped one.
unfoldable pub has_credential : String → List Credential → Bool
has_credential id [] = false
has_credential id (pk ∷ pks) = not (pk.id == "") && pk.id == id || has_credential id pks

-- `delete(labels, k)`, on a map that has a key once.
unfoldable pub drop_label : String → List (String × String) → List (String × String)
drop_label k [] = []
drop_label k ((j, w) ∷ m) = let rest = drop_label k m in if j == k then rest else (j, w) ∷ rest

-- The record without the credential, of which the sessions are revoked.
abbrev pub without : String → User → User
without id u = record u {
  passkeys = drop_credential id u.passkeys;
  passkey_labels = drop_label id u.passkey_labels;
  auth_epoch = suc u.auth_epoch;
}

-- `recode` is the text in the form of `base64.RawURLEncoding` of the bytes that a text encodes.
module _ (D : Driver User) (k : Crypto) (cfg : Config) (recode : String → Option String) where
  -- The tests that both requests begin with: the user's name, the id and the record.
  unfoldable pub find_account :
      Bool → World D → Context → Option CredentialBody → Reply ⊎ (String × String × User)
  unfolding get_user_by_name
  find_account enabled w c none = inl (
      if enabled
      then json 400 false (lit "Bad post data")
      else json 403 false (lit "Passkeys are disabled in settings"))
  find_account enabled w c (some b) =
      let name = trim_space b.username in
      if not enabled
      then inl (json 403 false (lit "Passkeys are disabled in settings"))
      else if is_bad_name name
      then inl (json 400 false (lit "Invalid username"))
      else if not (is_admin cfg c) && not (name == current_user cfg c)
      then inl (json 403 false (lit "Not allowed"))
      else elim (recode (trim_space b.credential_id)) [
        | none ↦ inl (json 400 false (lit "Invalid credential id"))
        | some id ↦
            if id == ""
            then inl (json 400 false (lit "Invalid credential id"))
            else elim (get_user_by_name D w name) [
              | none ↦ inl (json 404 false (lit "User not found"))
              | some u ↦ inr (name, id, u)
            ]
      ]

  unfoldable pub remove_from : World D → Context → String → String → User → Outcome D
  unfolding drop_credential has_credential drop_label
  remove_from w c name id u =
      if not (has_credential id u.passkeys)
      then (w, c, json 404 false (lit "Credential not found"))
      else (let (w', saved) = save_user D k (without id u) w in
          if not saved
          then (w', c, json 500 false failure)
          else if name == current_user cfg c
          then (w', clear_session c, reauthenticate (tr "api.passkey_removed_reauth"))
          else (w', c, json 200 true (tr "api.passkey_removed_sessions_revoked")))

  -- `PasskeyRemove`
  unfoldable pub passkey_remove : Bool → World D → Context → Option CredentialBody → Outcome D
  unfolding find_account remove_from
  passkey_remove enabled w c b = elim (find_account enabled w c b) [
    | inl refusal ↦ (w, c, refusal)
    | inr (name, id, u) ↦ remove_from w c name id u
  ]

  unfoldable pub rename_in : World D → Context → String → String → String → User → Outcome D
  unfolding has_credential put_label
  rename_in w c name id label u =
      if not (has_credential id u.passkeys)
      then (w, c, json 404 false (lit "Credential not found"))
      else (let u' : User = record u {
        passkey_labels = put_label id (trim_space label) u.passkey_labels;
      } in
          let (w', saved) = save_user D k u' w in
          if not saved
          then (w', c, json 500 false failure)
          else if name == current_user cfg c
          then (
            w',
            set_user u'.username u'.admin (user_crc32 k u') c,
            json 200 true (lit "Passkey renamed"),
          )
          else (w', c, json 200 true (lit "Passkey renamed")))

  -- `PasskeyRename`
  unfoldable pub passkey_rename : Bool → World D → Context → Option CredentialBody → Outcome D
  unfolding find_account rename_in
  passkey_rename enabled w c b = elim (find_account enabled w c b) [
    | inl refusal ↦ (w, c, refusal)
    | inr (name, id, u) ↦ rename_in w c name id (elim b [ none ↦ "" | some sent ↦ sent.name ]) u
  ]

module _ (D : Driver User) (k : Crypto) where
  -- The loop of `ClearStoredPasskeysForAllUsers`, which stops at the first error.
  unfoldable pub clear_each : List User → World D → World D × Bool
  clear_each [] w = (w, true)
  clear_each (u ∷ us) w = elim u.passkeys [
    | [] ↦ clear_each us w
    | pk ∷ pks ↦
        let (w', saved) = save_user D k (record u { passkeys = [] }) w in
        let rest = clear_each us w' in if saved then rest else (w', false)
  ]

  unfoldable pub clear_stored_passkeys_for_all_users : World D → World D × Bool
  unfolding get_users clear_each
  clear_stored_passkeys_for_all_users w = elim (get_users D w) [
    | none ↦ (w, false)
    | some us ↦ clear_each us w
  ]
