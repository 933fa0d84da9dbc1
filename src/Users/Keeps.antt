-- ===== src/Users/Keeps.antt =====
-- The handlers that change users keep the collection keyed by name and never remove the last
-- active administrator, whichever reads, writes and mode changes fail.
pub mod Update
use wireguard_ui.Prelude.{
  suc, String, ◌≡◌, ◌≢◌, refl, ◌⊎◌, inl, inr, Bool, true, false, not, ◌&&◌, Option, none, some,
  ◌==◌, Bool-cases, Option-cases, if◌then◌else◌, arith,
}
use wireguard_ui.Text.{trim_space, username_matches}
use wireguard_ui.Store.{Driver, IsDriver}
use wireguard_ui.Session.Values.{Config, Context, Reply, json, lit, failure}
use wireguard_ui.Session.{current_user, is_admin}
use wireguard_ui.Users.{
  User, no_user, Crypto, World, get_user_by_name, save_user, delete_user, ensure_can_demote,
  ensure_leaving_active_admin_when_disabling,
}
use wireguard_ui.Users.Handlers.{
  UserBody, FlagBody, Outcome, create_user, remove_user, set_user_admin, set_user_disabled,
  revoke_user_sessions,
}
use wireguard_ui.Users.Admins.{
  is_active, IsKeyed, HasAdmin, HasOther, write-IsKeyed, delete-IsKeyed, write-HasAdmin_of_other,
  delete-HasAdmin_of_other, write-HasAdmin_of_same, HasOther-of_absent, HasOther-of_inactive,
}
use wireguard_ui.Users.Admins.Guards.{HasOther-of_demote, HasOther-of_disable}

-- The collection is keyed by name and has an active administrator.
pub record IsGoverned (D : Driver User) (d : D.Dir) : Type 0 where
  pub keyed : IsKeyed D d
  pub governed : HasAdmin D d

module _ {D : Driver User} (laws : IsDriver D) (k : Crypto) (cfg : Config) where
  save_user_dir :
      (u : User) (w : World D) → (save_user D k u w).0.dir ≡ (D.write w.dir u.username u).0
  unfolding save_user
  save_user_dir u w = ground arith

  save_user-IsGoverned_of_other :
      (u : User) (w : World D)
      → IsKeyed D w.dir
      → HasOther D w.dir u.username
      → IsGoverned D (save_user D k u w).0.dir
  save_user-IsGoverned_of_other u w h o = rw (save_user_dir u w) (record {
    keyed = write-IsKeyed laws w.dir u h;
    governed = write-HasAdmin_of_other laws w.dir u.username u o;
  })

  save_user-IsGoverned_of_same :
      (u v : User) (w : World D)
      → IsGoverned D w.dir
      → D.read w.dir v.username ≡ some u
      → (is_active u ≡ true → is_active v ≡ true)
      → IsGoverned D (save_user D k v w).0.dir
  save_user-IsGoverned_of_same u v w g e same = rw (save_user_dir v w) (record {
    keyed = write-IsKeyed laws w.dir v g.keyed;
    governed = write-HasAdmin_of_same laws w.dir v.username u v g.governed e same;
  })

  abbrev new_user : UserBody → String → User
  new_user b hash = record no_user {
    username = b.username;
    display_name = trim_space b.display_name;
    email = trim_space b.email;
    password_hash = hash;
    admin = b.admin;
  }

  pub create_user-IsGoverned :
      (w : World D) (c : Context) (b : Option UserBody)
      → IsGoverned D w.dir
      → IsGoverned D (create_user D k cfg w c b).0.dir
  unfolding create_user get_user_by_name
  create_user-IsGoverned w c none g = g
  create_user-IsGoverned w c (some b) g = elim (Option-cases (D.read w.dir b.username)) [
    | inr (u, e) ↦ ground arith
    | inl e ↦ elim (Option-cases (k.hash_password b.password)) [
      | inl n ↦ ground arith
      | inr (hash, e') ↦
          let o = HasOther-of_absent laws w.dir b.username g.governed e in
          ground (arith, save_user-IsGoverned_of_other (new_user b hash) w g.keyed o)
    ]
  ]

  pub remove_user-IsGoverned :
      (w : World D) (c : Context) (b : Option String)
      → IsGoverned D w.dir
      → IsGoverned D (remove_user D k cfg w c b).0.dir
  unfolding remove_user get_user_by_name delete_user
  remove_user-IsGoverned w c none g = g
  remove_user-IsGoverned w c (some name) g = elim (Option-cases (D.read w.dir name)) [
    | inl e ↦ ground arith
    | inr (u, e) ↦ elim (Bool-cases u.admin) [
      | inl a ↦ ground arith
      | inr a ↦
          let o = HasOther-of_inactive laws w.dir name u g.governed e (ground arith) in
          let kept : IsGoverned D (D.delete w.dir name).0 = record {
            keyed = delete-IsKeyed laws w.dir name g.keyed;
            governed = delete-HasAdmin_of_other laws w.dir name o;
          } in
          ground arith
    ]
  ]

  pub set_user_admin-IsGoverned :
      (w : World D) (c : Context) (b : Option FlagBody)
      → IsGoverned D w.dir
      → IsGoverned D (set_user_admin D k cfg w c b).0.dir
  unfolding set_user_admin get_user_by_name
  set_user_admin-IsGoverned w c none g = g
  set_user_admin-IsGoverned w c (some b) g =
      let name = trim_space b.username in
      elim (Option-cases (D.read w.dir name)) [
        | inl e ↦ ground arith
        | inr (u, e) ↦ ground (
          arith,
          g.keyed.at name u e,
          HasOther-of_demote laws w g.keyed name u e,
          save_user-IsGoverned_of_other (record u { admin = b.flag }) w g.keyed,
          save_user-IsGoverned_of_same u (record u { admin = b.flag }) w g,
        )
      ]

  pub set_user_disabled-IsGoverned :
      (w : World D) (c : Context) (b : Option FlagBody)
      → IsGoverned D w.dir
      → IsGoverned D (set_user_disabled D k cfg w c b).0.dir
  unfolding set_user_disabled get_user_by_name
  set_user_disabled-IsGoverned w c none g = g
  set_user_disabled-IsGoverned w c (some b) g =
      let name = trim_space b.username in
      elim (Option-cases (D.read w.dir name)) [
        | inl e ↦ ground arith
        | inr (u, e) ↦ ground (
          arith,
          g.keyed.at name u e,
          HasOther-of_disable laws w g.keyed name u g.governed e,
          save_user-IsGoverned_of_other (record u { disabled = true }) w g.keyed,
          save_user-IsGoverned_of_same u (record u { disabled = false }) w g,
        )
      ]

  pub revoke_user_sessions-IsGoverned :
      (w : World D) (c : Context) (b : Option String)
      → IsGoverned D w.dir
      → IsGoverned D (revoke_user_sessions D k cfg w c b).0.dir
  unfolding revoke_user_sessions get_user_by_name
  revoke_user_sessions-IsGoverned w c none g = g
  revoke_user_sessions-IsGoverned w c (some b) g =
      let name = trim_space b in
      elim (Option-cases (D.read w.dir name)) [
        | inl e ↦ ground arith
        | inr (u, e) ↦ ground (
          arith,
          g.keyed.at name u e,
          save_user-IsGoverned_of_same u (record u { auth_epoch = suc u.auth_epoch }) w g,
        )
      ]
