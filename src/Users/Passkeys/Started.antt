-- ===== src/Users/Passkeys/Started.antt =====
-- What a login by a passkey starts, and that its challenge serves once.
use wireguard_ui.Prelude.{
  ℕ, ◌+◌, String, Bool, true, false, ◌&&◌, ◌≡◌, ◌≢◌, refl, ◌∙◌, ◌⊎◌, inl, inr, Option, none, some,
  ◌==◌, leb, Bool-cases, Option-cases, if◌then◌else◌, arith,
}
use wireguard_ui.Text.{trim_space}
use wireguard_ui.Store.{Driver}
use wireguard_ui.Session.Values.{ℤ, Config, Context, Reply, json, lit, follow_up}
use wireguard_ui.Session.{is_valid_session, effective_idle_seconds, is_android_client}
use wireguard_ui.Users.{Credential, User, Crypto, get_user_by_name}
use wireguard_ui.Users.Login.{login_age, set_login_session}
use wireguard_ui.Users.Login.Window.{set_login_session_window}
use wireguard_ui.Users.Passkeys.Ceremony.{
  WebAuthn, Desk, get_entry, get_entry-delete_entry, held_token, login_key, discoverable_key,
}
use wireguard_ui.Users.Passkeys.Assertion.{
  discoverable_user_lookup, pending_login, complete_login, finish_discoverable_login,
  finish_login_of, passkey_finish_login,
}

abbrev pub logged_in : Reply
logged_in = json 200 true (lit "Logged in successfully")

-- The library answers a discoverable login with a user that the given search has found.
pub record IsWebAuthn (a : WebAuthn) : Type 0 where
  pub found :
      (look : String → Option User) (sent : a.Data) (body : a.Body) (u : User) (cred : Credential)
      → a.finish_discoverable look sent body ≡ some (u, cred)
      → (id : String) × (look id ≡ some u)

-- The check does not read the credential's id.
is_valid_session_pk :
    (cfg : Config) (crc : String → Option ℕ) (c : Context) (id : Option String) (later : ℕ)
    → is_valid_session cfg crc (
        follow_up
          (record c {
            session = record c.session { pk_login_cred = id };
            saved = record c.saved { pk_login_cred = id };
          })
          later)
      ≡ is_valid_session cfg crc (follow_up c later)
unfolding is_valid_session effective_idle_seconds is_android_client
is_valid_session_pk cfg crc c id later = refl

module _ (D : Driver User) (k : Crypto) (a : WebAuthn) (enabled ready : Bool) where
  -- The token of the challenge that the session holds for a login.
  abbrev pub login_challenge : Desk D a → String → String
  login_challenge d sent =
      held_token (if trim_space sent == "" then discoverable_key else login_key (trim_space sent))
        d.held

  ends :
      (d : Desk D a) (sent : String) (r : Bool) (body : a.Body) (minutes : ℤ) (uid : String)
      → (passkey_finish_login D k a enabled ready d (some (sent, r, body)) minutes uid).1
        ≡ logged_in
      → get_entry
          (login_challenge d sent)
          (passkey_finish_login D k a enabled ready d (some (sent, r, body)) minutes uid).0.logins
        ≡ none
  unfolding passkey_finish_login
  ends d sent r body minutes uid done =
      ground (arith, get_entry-delete_entry (login_challenge d sent) d.logins)

  expired :
      (e : Desk D a) (sent : String) (r : Bool) (body : a.Body) (minutes : ℤ) (uid : String)
      → get_entry (login_challenge e sent) e.logins ≡ none
      → (passkey_finish_login D k a enabled ready e (some (sent, r, body)) minutes uid).1
        ≢ logged_in
  unfolding passkey_finish_login
  expired e sent r body minutes uid gone done = ground (arith, gone)

  -- After a login that is answered with status 200, no login under whichever name, with whatever
  -- body and session, whose session names the same challenge is answered so, while the map of
  -- challenges is as the login left it.
  pub passkey_finish_login_once :
      (d e : Desk D a) (sent sent' : String) (r r' : Bool) (body body' : a.Body)
      (minutes minutes' : ℤ) (uid uid' : String)
      → (passkey_finish_login D k a enabled ready d (some (sent, r, body)) minutes uid).1
        ≡ logged_in
      → e.logins
        ≡ (passkey_finish_login D k a enabled ready d (some (sent, r, body)) minutes uid).0.logins
      → login_challenge e sent' ≡ login_challenge d sent
      → (passkey_finish_login D k a enabled ready e (some (sent', r', body')) minutes' uid').1
        ≢ logged_in
  passkey_finish_login_once d e sent sent' r r' body body' minutes minutes' uid uid' done same
        held =
      expired e sent' r' body' minutes' uid'
        (rw held (rw same (ends d sent r body minutes uid done)))

  -- Whether the body asks to be remembered.
  abbrev pub remembers : Option (String × Bool × a.Body) → Bool
  remembers none = false
  remembers (some (sent, r, body)) = r

  -- The login of a user: the account of the new session.
  pub record Starts (cfg : Config) (later : ℕ) (d : Desk D a) (r : Bool) (minutes : ℤ) (u : User)
      (o : Desk D a × Reply) : Type 0 where
    pub enabled_user : u.disabled ≡ false
    pub known :
        ((name : String) × (get_user_by_name D d.world name ≡ some u))
        ⊎ ((id : String) × (discoverable_user_lookup D k a enabled ready d.world id ≡ some u))
    pub user : o.0.request.saved.username ≡ some u.username
    pub lasts : is_valid_session cfg o.0.world.crc (follow_up o.0.request later) ≡ (
        leb d.request.now later
        && leb later (d.request.now + login_age d.request r minutes)
        && leb later (d.request.now + cfg.session_max_duration))

  module _ (d : Desk D a) (key token : String) (u : User) (cred : Credential) (r : Bool)
      (minutes : ℤ) (uid : String)
      (done : (complete_login D k a enabled ready d key token u cred r minutes uid).1
        ≡ logged_in) where
    saves_of_done : d.request.saves ≡ true
    unfolding complete_login
    saves_of_done = ground arith

    user_of_done :
        (complete_login D k a enabled ready d key token u cred r minutes
          uid).0.request.saved.username
        ≡ some u.username
    unfolding complete_login
    user_of_done = ground arith

    abbrev kept_id : Option String
    kept_id = if cred.id == "" then none else some cred.id

    request_of_done :
        let c = (set_login_session D k d.world d.request u r minutes uid).1 in
        (complete_login D k a enabled ready d key token u cred r minutes uid).0.request ≡ record c {
          session = record c.session { pk_login_cred = kept_id };
          saved = record c.saved { pk_login_cred = kept_id };
        }
    unfolding complete_login
    request_of_done = ground (arith, saves_of_done)

    world_of_done :
        (complete_login D k a enabled ready d key token u cred r minutes uid).0.world
        ≡ (set_login_session D k d.world d.request u r minutes uid).0
    unfolding complete_login
    world_of_done = ground (arith, saves_of_done)

    complete_login-Starts :
        (cfg : Config) (later : ℕ)
        → cfg.disable_login ≡ false
        → u.disabled ≡ false
        → ((name : String) × (get_user_by_name D d.world name ≡ some u))
          ⊎ ((id : String) × (discoverable_user_lookup D k a enabled ready d.world id ≡ some u))
        → Starts cfg later d r minutes u
            (complete_login D k a enabled ready d key token u cred r minutes uid)
    complete_login-Starts cfg later on active known = record {
      enabled_user = active;
      known = known;
      user = user_of_done;
      lasts = rw request_of_done (
          rw world_of_done (
            is_valid_session_pk cfg _ (set_login_session D k d.world d.request u r minutes uid).1
              kept_id later
            ∙ set_login_session_window D k cfg d.world d.request u r minutes uid later on
                saves_of_done));
    }

  discoverable-Starts :
      IsWebAuthn a
      → (cfg : Config) (later : ℕ) (d : Desk D a) (r : Bool) (body : a.Body) (minutes : ℤ)
        (uid : String)
      → cfg.disable_login ≡ false
      → (finish_discoverable_login D k a enabled ready d r body minutes uid).1 ≡ logged_in
      → (u : User) × Starts cfg later d r minutes u
          (finish_discoverable_login D k a enabled ready d r body minutes uid)
  unfolding finish_discoverable_login pending_login
  discoverable-Starts laws cfg later d r body minutes uid on done =
      elim (Option-cases (get_entry (held_token discoverable_key d.held) d.logins)) [
        | inl e ↦ absurd (ground (arith, e))
        | inr (sent, e) ↦
            elim (Option-cases (
              a.finish_discoverable (discoverable_user_lookup D k a enabled ready d.world) sent
                body)) [
                  | inl f ↦ absurd (ground (arith, e, f))
                  | inr ((u, cred), f) ↦
                      let token = held_token discoverable_key d.held in
                      let active : u.disabled ≡ false = ground (arith, e, f) in
                      let step : finish_discoverable_login D k a enabled ready d r body minutes uid
                          ≡ complete_login D k a enabled ready d discoverable_key token u cred r
                              minutes uid =
                        ground (arith, e, f, active) in
                      (
                        u,
                        rw step (
                            complete_login-Starts d discoverable_key token u cred r minutes uid
                              (rw step at done) cfg later on active
                              (inr (laws.found _ sent body u cred f))),
                      )
                ]
      ]

  named-Starts :
      (cfg : Config) (later : ℕ) (d : Desk D a) (name : String) (r : Bool) (body : a.Body)
      (minutes : ℤ) (uid : String)
      → cfg.disable_login ≡ false
      → (finish_login_of D k a enabled ready d name r body minutes uid).1 ≡ logged_in
      → (u : User) × Starts cfg later d r minutes u
          (finish_login_of D k a enabled ready d name r body minutes uid)
  unfolding finish_login_of pending_login
  named-Starts cfg later d name r body minutes uid on done =
      elim (Option-cases (get_user_by_name D d.world name)) [
        | inl e ↦ absurd (ground (arith, e))
        | inr (u, e) ↦
            elim (Option-cases (get_entry (held_token (login_key name) d.held) d.logins)) [
              | inl f ↦ absurd (ground (arith, e, f))
              | inr (sent, f) ↦ elim (Option-cases (a.finish_login u sent body)) [
                | inl g ↦ absurd (ground (arith, e, f, g))
                | inr (cred, g) ↦
                    let token = held_token (login_key name) d.held in
                    let active : u.disabled ≡ false = ground (arith, e, f, g) in
                    let step : finish_login_of D k a enabled ready d name r body minutes uid
                        ≡ complete_login D k a enabled ready d (login_key name) token u cred r
                            minutes uid =
                      ground (arith, e, f, g, active) in
                    (
                      u,
                      rw step (
                          complete_login-Starts d (login_key name) token u cred r minutes uid
                            (rw step at done) cfg later on active (inl (name, e))),
                    )
              ]
            ]
      ]

  -- Let the library answer a discoverable login with a user that the given search found. A login by a
  -- passkey, with or without a name, that is answered with status 200 starts a session of a user who
  -- is not disabled and whom the database or the search by a credential gives, and while logins are
  -- required, a later request of the same client with the cookies of the answer passes the session
  -- check exactly from the time of the login on, up to the login's idle age and up to the maximal
  -- duration of a session, while no user changes.
  pub passkey_finish_login-Starts :
      IsWebAuthn a
      → (cfg : Config) (later : ℕ) (d : Desk D a) (body : Option (String × Bool × a.Body))
        (minutes : ℤ) (uid : String)
      → cfg.disable_login ≡ false
      → (passkey_finish_login D k a enabled ready d body minutes uid).1 ≡ logged_in
      → (u : User) × Starts cfg later d
          (remembers body)
          minutes
          u
          (passkey_finish_login D k a enabled ready d body minutes uid)
  unfolding passkey_finish_login
  passkey_finish_login-Starts laws cfg later d none minutes uid on done = absurd (ground arith)
  passkey_finish_login-Starts laws cfg later d (some (sent, r, body)) minutes uid on done =
      elim (Bool-cases (trim_space sent == "")) [
        | inl blank ↦
            let step : passkey_finish_login D k a enabled ready d (some (sent, r, body)) minutes uid
                ≡ finish_discoverable_login D k a enabled ready d r body minutes uid =
              ground arith in
            rw step (discoverable-Starts laws cfg later d r body minutes uid on (rw step at done))
        | inr given ↦
            let step : passkey_finish_login D k a enabled ready d (some (sent, r, body)) minutes uid
                ≡ finish_login_of D k a enabled ready d (trim_space sent) r body minutes uid =
              ground arith in
            rw step
              (named-Starts cfg later d (trim_space sent) r body minutes uid on (rw step at done))
      ]
