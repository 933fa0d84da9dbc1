-- ===== src/Users/Passkeys/Removed.antt =====
-- What `PasskeyRemove` of handler/passkeys.go leaves of a user's record and sessions.
use wireguard_ui.Prelude.{
  suc, String, Bool, true, false, Option, some, List, [], ◌∷◌, ◌==◌, ◌≡◌, ◌≢◌, ◌⊎◌, refl, eq_iff,
  eq_refl, if◌then◌else◌, arith,
}
use wireguard_ui.Text.{trim_space}
use wireguard_ui.Store.{Driver, IsDriver}
use wireguard_ui.Session.Values.{Config, Context, json, reauthenticate, tr}
use wireguard_ui.Session.{is_valid_session}
use wireguard_ui.Users.{Credential, User, Crypto, World, user_crc32, get_user_by_name, save_user}
use wireguard_ui.Users.Revocation.{IsSessionOf, stale, crc_of_save}
use wireguard_ui.Users.Passkeys.{
  CredentialBody, drop_credential, drop_label, without, find_account, remove_from, passkey_remove,
}

-- The elements that a test does not pick, in their order.
pub rejecting {ℓ} : {A : Type ℓ} → (A → Bool) → List A → List A
rejecting p [] = []
rejecting p (x ∷ xs) = if p x then rejecting p xs else x ∷ rejecting p xs

-- The record without the credentials of an id and without its label, with the epoch raised by one.
abbrev pub removed : String → User → User
removed id u = record u {
  passkeys = rejecting (λ (pk : Credential). pk.id == id) u.passkeys;
  passkey_labels = rejecting (λ (l : String × String). l.0 == id) u.passkey_labels;
  auth_epoch = suc u.auth_epoch;
}

drop_credential_lem :
    (id : String) (pks : List Credential)
    → id ≢ ""
    → drop_credential id pks ≡ rejecting (λ (pk : Credential). pk.id == id) pks
unfolding drop_credential rejecting
drop_credential_lem id [] n = refl
drop_credential_lem id (pk ∷ pks) n =
    ground (arith, drop_credential_lem id pks n, eq_iff pk.id "", eq_iff pk.id id)

drop_label_lem :
    (id : String) (m : List (String × String))
    → drop_label id m ≡ rejecting (λ (l : String × String). l.0 == id) m
unfolding drop_label rejecting
drop_label_lem id [] = refl
drop_label_lem id ((j, v) ∷ m) = ground (arith, drop_label_lem id m)

without_lem : (id : String) (u : User) → id ≢ "" → without id u ≡ removed id u
without_lem id u n =
    let credentials = drop_credential_lem id u.passkeys n in
    let labels = drop_label_lem id u.passkey_labels in
    λ i. record u {
      passkeys = credentials i;
      passkey_labels = labels i;
      auth_epoch = suc u.auth_epoch;
    }

module _ (D : Driver User) (k : Crypto) where
  get_user_by_name-save_user :
      IsDriver D
      → (w : World D) (u : User) → (save_user D k u w).1 ≡ true
      → get_user_by_name D (save_user D k u w).0 u.username ≡ some u
  unfolding save_user get_user_by_name
  get_user_by_name-save_user laws w u saved =
      ground (arith, laws.read-write w.dir u.username u u.username, eq_refl u.username)

module _ (D : Driver User) (k : Crypto) (cfg : Config) (recode : String → Option String) where
  -- While logins are required, when the server answers that the passkey of an id is removed from a
  -- user, whose record is stored under its name, the stored record is the one before with all its
  -- credentials but those of the id, in their order, all its labels but the id's, the epoch raised
  -- by one and every other field as it was; and every session that was issued to the record before
  -- fails the check, if that record has another checksum than the one before.
  pub passkey_remove_ends :
      IsDriver D
      → (w : World D) (c d : Context) (b : CredentialBody) (id : String) (u : User)
      → cfg.disable_login ≡ false
      → recode (trim_space b.credential_id) ≡ some id
      → get_user_by_name D w (trim_space b.username) ≡ some u
      → u.username ≡ trim_space b.username
      → user_crc32 k (removed id u) ≢ user_crc32 k u
      → ((passkey_remove D k cfg recode true w c (some b)).2
          ≡ json 200 true (tr "api.passkey_removed_sessions_revoked"))
        ⊎ ((passkey_remove D k cfg recode true w c (some b)).2
            ≡ reauthenticate (tr "api.passkey_removed_reauth"))
      → IsSessionOf (trim_space b.username) (user_crc32 k u) d
      → (get_user_by_name D
            (passkey_remove D k cfg recode true w c (some b)).0
            (trim_space b.username)
          ≡ some (removed id u))
        × (is_valid_session cfg (passkey_remove D k cfg recode true w c (some b)).0.crc d ≡ false)
  unfolding passkey_remove find_account remove_from
  passkey_remove_ends laws w c d b id u on r e named differs done s =
      let given : id ≢ "" = λ empty. ground (arith, eq_iff id "") in
      let u' = without id u in
      let same = without_lem id u given in
      (
        ground (arith, get_user_by_name-save_user D k laws w u', same),
        stale cfg _ (trim_space b.username) (user_crc32 k u) d on s
            (ground (arith, crc_of_save D k cfg w u', same)),
      )
