-- ===== src/Users/Update.antt =====
-- `UpdateUser` and `GetUser` of handler/routes.go.
use wireguard_ui.Prelude.{
  String, Bool, true, false, not, ◌&&◌, Option, none, some, ◌==◌, if◌then◌else◌,
}
use wireguard_ui.Text.{trim_space, username_matches}
use wireguard_ui.Store.{Driver}
use wireguard_ui.Session.Values.{Config, Context, Reply, json, reauthenticate, lit, tr, failure}
use wireguard_ui.Session.{current_user, is_admin, set_user, clear_session}
use wireguard_ui.Users.{
  User, Crypto, World, user_crc32, get_user_by_name, save_user, delete_user, ensure_can_demote,
}
use wireguard_ui.Users.Handlers.{UserBody, Outcome, bad_username, is_bad_name}

module _ (D : Driver User) (k : Crypto) (cfg : Config) where
  -- From the deletion of the old record on.
  replace_user : World D → Context → String → Bool → User → Outcome D
  replace_user w c previous password_changed user =
      let (w₁, deleted) = delete_user D previous w in
      if not deleted
      then (w₁, c, json 500 false failure)
      else (let (w₂, saved) = save_user D k user w₁ in
          if not saved
          then (w₂, c, json 500 false failure)
          else if not (previous == current_user cfg c)
          then (w₂, c, json 200 true (lit "Updated user information successfully"))
          else if password_changed
          then (w₂, clear_session c, reauthenticate (tr "api.password_updated_reauth"))
          else (
            w₂,
            set_user user.username user.admin (user_crc32 k user) c,
            json 200 true (lit "Updated user information successfully"),
          ))

  -- The role, which a user cannot change on its own account.
  assign_role : World D → Context → String → Bool → Bool → User → Outcome D
  unfolding replace_user
  assign_role w c previous admin password_changed user =
      if previous == current_user cfg c
      then replace_user w c previous password_changed user
      else if not admin && user.admin && not (ensure_can_demote D w previous)
      then (w, c, json 400 false failure)
      else replace_user w c previous password_changed (record user { admin = admin })

  assign_password : World D → Context → UserBody → Bool → User → Outcome D
  unfolding assign_role
  assign_password w c b admin user =
      if trim_space b.password == ""
      then assign_role w c b.previous_username admin false user
      else elim (k.hash_password b.password) [
        | none ↦ (w, c, json 500 false failure)
        | some hash ↦
            assign_role w c b.previous_username admin true (record user { password_hash = hash })
      ]

  abbrev pub is_taken : World D → String → String → Bool
  is_taken w name previous =
      if name == previous
      then false
      else elim (get_user_by_name D w name) [ none ↦ false | some _ ↦ true ]

  edit_user : World D → Context → UserBody → Bool → User → Outcome D
  unfolding assign_password
  edit_user w c b admin user =
      if is_bad_name b.username
      then (w, c, bad_username)
      else if is_taken w b.username b.previous_username
      then (w, c, json 400 false (lit "This username is taken"))
      else assign_password w c b admin (record user {
        display_name = trim_space b.display_name;
        email = trim_space b.email;
        username = b.username;
      })

  unfoldable pub update_user : World D → Context → Option UserBody → Outcome D
  unfolding edit_user
  update_user w c none = (w, c, json 400 false (lit "Bad post data"))
  update_user w c (some b) =
      if not (is_admin cfg c) && not (b.previous_username == current_user cfg c)
      then (w, c, json 403 false (lit "Manager cannot access other user data"))
      else if not (username_matches b.previous_username)
      then (w, c, bad_username)
      else elim (get_user_by_name D w b.previous_username) [
        | none ↦ (w, c, json 404 false failure)
        | some user ↦ edit_user w c b (if is_admin cfg c then b.admin else false) user
      ]

-- The answer of `GetUser`: a refusal, or the record with its password fields blanked.
pub data UserReply : Type 0 where
  refused : Reply → UserReply
  shown : User → UserReply

module _ (D : Driver User) (cfg : Config) where
  unfoldable pub get_user : World D → Context → String → UserReply
  get_user w c username =
      if not (username_matches username)
      then refused bad_username
      else if not (is_admin cfg c) && not (username == current_user cfg c)
      then refused (json 403 false (lit "Manager cannot access other user data"))
      else elim (get_user_by_name D w username) [
        | none ↦ refused (json 404 false (lit "User not found"))
        | some u ↦ shown (record u { password = ""; password_hash = "" })
      ]
