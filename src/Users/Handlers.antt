-- ===== src/Users/Handlers.antt =====
-- The handlers of handler/routes.go that change users. A body that does not decode is `none`, and a
-- field that it lacks is Go's zero value. Log lines are left out.
use wireguard_ui.Prelude.{
  suc, String, Bool, true, false, not, ◌&&◌, ◌||◌, Option, none, some, ◌==◌, if◌then◌else◌,
}
use wireguard_ui.Text.{trim_space, username_matches}
use wireguard_ui.Store.{Driver}
use wireguard_ui.Session.Values.{Config, Context, Reply, json, reauthenticate, lit, tr, failure}
use wireguard_ui.Session.{current_user, set_user, clear_session}
use wireguard_ui.Users.{
  User, no_user, Crypto, World, user_crc32, get_user_by_name, save_user, delete_user,
  ensure_can_demote, ensure_leaving_active_admin_when_disabling,
}

pub record UserBody : Type 0 where
  pub username : String
  pub password : String
  pub previous_username : String
  pub admin : Bool
  pub display_name : String
  pub email : String

pub record FlagBody : Type 0 where
  pub username : String
  pub flag : Bool

-- The world and the request's context after a handler, and its answer.
abbrev pub Outcome : Driver User → Type 0
Outcome D = World D × Context × Reply

abbrev pub bad_username : Reply
bad_username = json 400 false (lit "Please provide a valid username")

-- `username == "" || !usernameRegexp.MatchString(username)`
abbrev pub is_bad_name : String → Bool
is_bad_name name = name == "" || not (username_matches name)

module _ (D : Driver User) (k : Crypto) (cfg : Config) where
  create_from : World D → Context → UserBody → Outcome D
  create_from w c b =
      if is_bad_name b.username
      then (w, c, bad_username)
      else if trim_space b.password == ""
      then (w, c, json 400 false (lit "Please provide an initial password"))
      else elim (get_user_by_name D w b.username) [
        | some _ ↦ (w, c, json 400 false (lit "This username is taken"))
        | none ↦ elim (k.hash_password b.password) [
          | none ↦ (w, c, json 500 false failure)
          | some hash ↦
              let user = record no_user {
                username = b.username;
                display_name = trim_space b.display_name;
                email = trim_space b.email;
                password_hash = hash;
                admin = b.admin;
              } in
              let (w', saved) = save_user D k user w in
              if saved
              then (w', c, json 200 true (lit "Created user successfully"))
              else (w', c, json 500 false failure)
        ]
      ]

  unfoldable pub create_user : World D → Context → Option UserBody → Outcome D
  unfolding create_from
  create_user w c none = (w, c, json 400 false (lit "Bad post data"))
  create_user w c (some b) = create_from w c b

  unfoldable pub remove_user : World D → Context → Option String → Outcome D
  remove_user w c none = (w, c, json 400 false (lit "Bad post data"))
  remove_user w c (some username) =
      if not (username_matches username)
      then (w, c, bad_username)
      else if username == current_user cfg c
      then (w, c, json 403 false (lit "User cannot delete itself"))
      else elim (get_user_by_name D w username) [
        | none ↦ (w, c, json 404 false (lit "User not found"))
        | some tu ↦
            if tu.admin
            then (w, c, json 403 false (lit "Cannot delete administrator accounts"))
            else (let (w', deleted) = delete_user D username w in
                if deleted
                then (w', c, json 200 true (lit "User removed"))
                else (w', c, json 500 false (lit "Cannot delete user from database")))
      ]

  set_admin_of : World D → Context → String → Bool → User → Outcome D
  set_admin_of w c target admin u =
      if target == current_user cfg c && not admin
      then (w, c, json 403 false (lit "Cannot remove administrator role from yourself"))
      else if not admin && u.admin && not (ensure_can_demote D w target)
      then (w, c, json 400 false failure)
      else (let u' : User = record u { admin = admin } in
          let (w', saved) = save_user D k u' w in
          if not saved then (w', c, json 500 false failure) else (
            w',
            (if target == current_user cfg c
                then set_user u'.username u'.admin (user_crc32 k u') c
                else c),
            json 200 true (lit "User role updated"),
          ))

  unfoldable pub set_user_admin : World D → Context → Option FlagBody → Outcome D
  unfolding set_admin_of
  set_user_admin w c none = (w, c, json 400 false (lit "Bad post data"))
  set_user_admin w c (some b) =
      let target = trim_space b.username in
      if is_bad_name target then (w, c, bad_username) else elim (get_user_by_name D w target) [
        | none ↦ (w, c, json 404 false (lit "User not found"))
        | some u ↦ set_admin_of w c target b.flag u
      ]

  enable : World D → Context → String → User → Outcome D
  enable w c target u =
      let u' : User = record u { disabled = false } in
      let (w', saved) = save_user D k u' w in
      if not saved then (w', c, json 500 false failure) else (
        w',
        (if target == current_user cfg c
            then set_user u'.username u'.admin (user_crc32 k u') c
            else c),
        json 200 true (tr "api.user_enabled"),
      )

  disable : World D → Context → String → User → Outcome D
  disable w c target u =
      if u.disabled
      then (w, c, json 200 true (tr "api.no_change"))
      else if not (ensure_leaving_active_admin_when_disabling D w target)
      then (w, c, json 400 false failure)
      else (let (w', saved) = save_user D k (record u { disabled = true }) w in
          if not saved
          then (w', c, json 500 false failure)
          else if target == current_user cfg c
          then (w', clear_session c, reauthenticate (tr "api.account_disabled_admin_reactive"))
          else (w', c, json 200 true (tr "api.user_disabled")))

  unfoldable pub set_user_disabled : World D → Context → Option FlagBody → Outcome D
  unfolding enable disable
  set_user_disabled w c none = (w, c, json 400 false (lit "Bad post data"))
  set_user_disabled w c (some b) =
      let target = trim_space b.username in
      if is_bad_name target then (w, c, bad_username) else elim (get_user_by_name D w target) [
        | none ↦ (w, c, json 404 false (lit "User not found"))
        | some u ↦ if not b.flag then enable w c target u else disable w c target u
      ]

  revoke : World D → Context → String → User → Outcome D
  revoke w c target u =
      if u.disabled
      then (w, c, json 400 false (tr "api.disabled_no_valid_sessions"))
      else (let (w', saved) = save_user D k (record u { auth_epoch = suc u.auth_epoch }) w in
          if not saved
          then (w', c, json 500 false failure)
          else if target == current_user cfg c
          then (w', clear_session c, reauthenticate (tr "api.session_revoked_reauth"))
          else (w', c, json 200 true (tr "api.user_sessions_revoked")))

  unfoldable pub revoke_user_sessions : World D → Context → Option String → Outcome D
  unfolding revoke
  revoke_user_sessions w c none = (w, c, json 400 false (lit "Bad post data"))
  revoke_user_sessions w c (some username) =
      let target = trim_space username in
      if is_bad_name target then (w, c, bad_username) else elim (get_user_by_name D w target) [
        | none ↦ (w, c, json 404 false (lit "User not found"))
        | some u ↦ revoke w c target u
      ]
