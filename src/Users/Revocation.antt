-- ===== src/Users/Revocation.antt =====
-- How the handlers end the sessions of a user, by way of the cache of checksums.
use wireguard_ui.Prelude.{
  ℕ, suc, String, ◌≡◌, ◌≢◌, ◌⊎◌, inl, inr, true, false, Option, some, eq_refl, eq_iff, Option-cases,
  arith,
}
use wireguard_ui.Text.{trim_space}
use wireguard_ui.Store.{Driver}
use wireguard_ui.Session.Values.{Config, Context, json, reauthenticate, lit, tr, uint32}
use wireguard_ui.Session.{is_valid_session}
use wireguard_ui.Users.{User, Crypto, World, user_crc32, get_user_by_name, save_user, delete_user}
use wireguard_ui.Users.Handlers.{FlagBody, remove_user, revoke_user_sessions, set_user_disabled}

-- The context of a request with a session of the user, issued while the user's checksum was `h`.
pub record IsSessionOf (name : String) (h : ℕ) (d : Context) : Type 0 where
  pub named : d.session.username ≡ some name
  pub hashed : d.session.user_hash ≡ uint32 h

pub stale :
    (cfg : Config) (crc : String → Option ℕ) (name : String) (h : ℕ) (d : Context)
    → cfg.disable_login ≡ false
    → IsSessionOf name h d
    → crc name ≢ some h
    → is_valid_session cfg crc d ≡ false
unfolding is_valid_session
stale cfg crc name h d on s gone = elim (Option-cases (crc name)) [
  | inl e ↦ ground arith
  | inr (h', e) ↦ ground arith
]

module _ (D : Driver User) (k : Crypto) (cfg : Config) where
  -- While logins are required, when the server answers that a user is removed, every session of that
  -- name fails the check.
  pub remove_user_ends_sessions :
      (w : World D) (c d : Context) (name : String) (h : ℕ)
      → cfg.disable_login ≡ false
      → (remove_user D k cfg w c (some name)).2 ≡ json 200 true (lit "User removed")
      → IsSessionOf name h d
      → is_valid_session cfg (remove_user D k cfg w c (some name)).0.crc d ≡ false
  unfolding remove_user delete_user
  remove_user_ends_sessions w c d name h on done s =
      stale cfg _ name h d on s (ground (arith, eq_refl name))

  pub crc_of_save :
      (w : World D) (u : User)
      → (save_user D k u w).1 ≡ true
      → (save_user D k u w).0.crc u.username ≡ some (user_crc32 k u)
  unfolding save_user
  crc_of_save w u saved = ground (arith, eq_refl u.username)

  -- While logins are required, when the server answers that the sessions of a user, whose record is
  -- stored under its name, are revoked, every session that was issued to the record before fails the
  -- check, if the record after has another checksum.
  pub revoke_user_sessions_ends_sessions :
      (w : World D) (c d : Context) (b : String) (u : User)
      → cfg.disable_login ≡ false
      → get_user_by_name D w (trim_space b) ≡ some u
      → u.username ≡ trim_space b
      → user_crc32 k (record u { auth_epoch = suc u.auth_epoch }) ≢ user_crc32 k u
      → ((revoke_user_sessions D k cfg w c (some b)).2
          ≡ json 200 true (tr "api.user_sessions_revoked"))
        ⊎ ((revoke_user_sessions D k cfg w c (some b)).2
            ≡ reauthenticate (tr "api.session_revoked_reauth"))
      → IsSessionOf (trim_space b) (user_crc32 k u) d
      → is_valid_session cfg (revoke_user_sessions D k cfg w c (some b)).0.crc d ≡ false
  unfolding revoke_user_sessions
  revoke_user_sessions_ends_sessions w c d b u on e named differs done s =
      stale cfg _ (trim_space b) (user_crc32 k u) d on s
        (ground (arith, crc_of_save w (record u { auth_epoch = suc u.auth_epoch })))

  -- While logins are required, when the server answers that a user, whose record is stored under its
  -- name, is disabled, every session that was issued to the record before fails the check, if the
  -- record after has another checksum.
  pub set_user_disabled_ends_sessions :
      (w : World D) (c d : Context) (b : FlagBody) (u : User)
      → cfg.disable_login ≡ false
      → get_user_by_name D w (trim_space b.username) ≡ some u
      → u.username ≡ trim_space b.username
      → user_crc32 k (record u { disabled = true }) ≢ user_crc32 k u
      → ((set_user_disabled D k cfg w c (some b)).2 ≡ json 200 true (tr "api.user_disabled"))
        ⊎ ((set_user_disabled D k cfg w c (some b)).2
            ≡ reauthenticate (tr "api.account_disabled_admin_reactive"))
      → IsSessionOf (trim_space b.username) (user_crc32 k u) d
      → is_valid_session cfg (set_user_disabled D k cfg w c (some b)).0.crc d ≡ false
  unfolding set_user_disabled
  set_user_disabled_ends_sessions w c d b u on e named differs done s =
      stale cfg _ (trim_space b.username) (user_crc32 k u) d on s (
        ground (
          arith,
          crc_of_save w (record u { disabled = true }),
          eq_iff "api.user_enabled" "api.user_disabled",
          eq_iff "api.no_change" "api.user_disabled",
        ))
