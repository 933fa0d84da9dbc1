-- ===== src/Users/Keeps/Update.antt =====
-- `UpdateUser` deletes the old record before it writes the new one. It keeps an active
-- administrator unless it answers that the database failed.
use wireguard_ui.Prelude.{
  String, ◌≡◌, ◌≢◌, ◌∙◌, ◌⊎◌, inl, inr, Bool, true, false, Option, none, some, ◌==◌, eq_iff,
  eq_refl, Bool-cases, Option-cases, if◌then◌else◌, arith,
}
use wireguard_ui.Text.{trim_space}
use wireguard_ui.Store.{Driver, IsDriver}
use wireguard_ui.Session.Values.{Config, Context, json, failure}
use wireguard_ui.Session.{current_user, is_admin}
use wireguard_ui.Users.{
  User, Crypto, World, get_user_by_name, save_user, delete_user, ensure_can_demote,
}
use wireguard_ui.Users.Handlers.{UserBody}
use wireguard_ui.Users.Update.{update_user, is_taken}
use wireguard_ui.Users.Admins.{
  is_active, HasAdmin, HasOther, write-IsKeyed, delete-IsKeyed, HasAdmin-cases,
  write-HasAdmin_of_other,
}
use wireguard_ui.Users.Admins.Guards.{HasOther-of_demote}
use wireguard_ui.Users.Keeps.{IsGoverned}

module _ {D : Driver User} (laws : IsDriver D) (k : Crypto) (cfg : Config) where
  -- What `is_taken` leaves: the new name is the old one, or nobody has it.
  abbrev IsFree : D.Dir → String → String → Type 0
  IsFree d previous name = (name ≡ previous) ⊎ (D.read d name ≡ none)

  -- The other administrator's name is not the new one, and its record is still there.
  HasOther-delete :
      (d : D.Dir) (previous name : String)
      → IsFree d previous name
      → (D.delete d previous).1 ≡ true
      → HasOther D d previous
      → HasOther D (D.delete d previous).0 name
  unfolding HasOther
  HasOther-delete d previous name free done (j, u, e, a, ne) =
      (j, u, (laws.read-delete d previous j done ∙ rw ne e), a, other)
    where
      other : (name == j) ≡ false
      other = ground (arith, eq_iff name j, eq_iff previous j)

  abbrev replaced : World D → String → User → World D × Bool
  replaced w previous v = save_user D k v (delete_user D previous w).0

  replaced-IsGoverned :
      (w : World D) (previous : String) (u v : User)
      → IsGoverned D w.dir
      → D.read w.dir previous ≡ some u
      → IsFree w.dir previous v.username
      → (is_active u ≡ true → is_active v ≡ true) ⊎ HasOther D w.dir previous
      → (delete_user D previous w).1 ≡ true
      → (replaced w previous v).1 ≡ true
      → IsGoverned D (replaced w previous v).0.dir
  unfolding save_user delete_user HasAdmin
  replaced-IsGoverned w previous u v g e free change deleted saved =
      let d = (D.delete w.dir previous).0 in
      let keyed = write-IsKeyed laws d v (delete-IsKeyed laws w.dir previous g.keyed) in
      let written : (D.write d v.username v).1 ≡ true = ground arith in
      let by_other : HasOther D w.dir previous → HasAdmin D (D.write d v.username v).0 = λ o.
        write-HasAdmin_of_other laws d v.username v
          (HasOther-delete w.dir previous v.username free deleted o) in
      let governed : HasAdmin D (D.write d v.username v).0 = elim change [
        | inr o ↦ by_other o
        | inl same ↦ elim (HasAdmin-cases laws w.dir previous g.governed) [
          | inr o ↦ by_other o
          | inl (x, ex, ax) ↦ (
            v.username,
            v,
            (laws.read-write d v.username v v.username written ∙ rw (eq_refl v.username)),
            same (ground arith),
          )
        ]
      ] in
      let all : IsGoverned D (D.write d v.username v).0 = record {
        keyed = keyed;
        governed = governed;
      } in
      ground arith

  IsFree-of_not_taken :
      (w : World D) (name previous : String)
      → is_taken D k cfg w name previous ≡ false
      → IsFree w.dir previous name
  unfolding get_user_by_name
  IsFree-of_not_taken w name previous h = elim (Bool-cases (name == previous)) [
    | inl same ↦ inl ((eq_iff name previous).0 same)
    | inr ne ↦ inr (ground arith)
  ]

  -- The new role is as strong as the old one, or the guard has found another administrator.
  role_change :
      (w : World D) (previous : String) (u v : User) (admin : Bool)
      → IsGoverned D w.dir
      → D.read w.dir previous ≡ some u
      → v.disabled ≡ u.disabled
      → v.admin ≡ admin
      → (admin ≡ false → u.admin ≡ true → ensure_can_demote D w previous ≡ true)
      → (is_active u ≡ true → is_active v ≡ true) ⊎ HasOther D w.dir previous
  role_change w previous u v admin g e same role guard = elim (Bool-cases u.admin) [
    | inr not_admin ↦ inl (λ a. ground arith)
    | inl is_admin ↦ elim (Bool-cases admin) [
      | inl up ↦ inl (λ a. ground arith)
      | inr down ↦
          inr (HasOther-of_demote laws w g.keyed previous u e is_admin (guard down is_admin))
    ]
  ]

  abbrev edited : User → UserBody → User
  edited u b = record u {
    display_name = trim_space b.display_name;
    email = trim_space b.email;
    username = b.username;
  }

  -- One way through the handler, from the choice of the new record on.
  edit-IsGoverned :
      (w : World D) (b : UserBody) (u v : User) (admin : Bool)
      → IsGoverned D w.dir
      → D.read w.dir b.previous_username ≡ some u
      → is_taken D k cfg w b.username b.previous_username ≡ false
      → v.username ≡ b.username
      → v.disabled ≡ u.disabled
      → v.admin ≡ admin
      → (admin ≡ false → u.admin ≡ true → ensure_can_demote D w b.previous_username ≡ true)
      → (delete_user D b.previous_username w).1 ≡ true
      → (replaced w b.previous_username v).1 ≡ true
      → IsGoverned D (replaced w b.previous_username v).0.dir
  edit-IsGoverned w b u v admin g e free name same role guard deleted saved =
      let named : IsFree w.dir b.previous_username v.username =
        rw name (IsFree-of_not_taken w b.username b.previous_username free) in
      replaced-IsGoverned w b.previous_username u v g e named
        (role_change w b.previous_username u v admin g e same role guard) deleted saved

  abbrev role : Context → UserBody → Bool
  role c b = if is_admin cfg c then b.admin else false

  abbrev KeepsGoverned : World D → Context → Option UserBody → Type 0
  KeepsGoverned w c b =
      (update_user D k cfg w c b).2 ≢ json 500 false failure
      → IsGoverned D (update_user D k cfg w c b).0.dir

  module _ (w : World D) (c : Context) (b : UserBody) (u : User) (g : IsGoverned D w.dir) where
    old_password :
        D.read w.dir b.previous_username ≡ some u
        → (trim_space b.password == "") ≡ true
        → KeepsGoverned w c (some b)
    unfolding update_user get_user_by_name
    old_password e kept ok = elim (Bool-cases (b.previous_username == current_user cfg c)) [
      | inl me ↦ ground (arith, edit-IsGoverned w b u (edited u b) u.admin g e)
      | inr ne ↦
          ground
            (arith, edit-IsGoverned w b u (record (edited u b) { admin = role c b }) (role c b) g e)
    ]

    new_password :
        (hash : String)
        → D.read w.dir b.previous_username ≡ some u
        → (trim_space b.password == "") ≡ false
        → k.hash_password b.password ≡ some hash
        → KeepsGoverned w c (some b)
    unfolding update_user get_user_by_name
    new_password hash e new e' ok =
        let v = record (edited u b) { password_hash = hash } in
        elim (Bool-cases (b.previous_username == current_user cfg c)) [
          | inl me ↦ ground (arith, edit-IsGoverned w b u v u.admin g e)
          | inr ne ↦
              ground (arith, edit-IsGoverned w b u (record v { admin = role c b }) (role c b) g e)
        ]

    found : D.read w.dir b.previous_username ≡ some u → KeepsGoverned w c (some b)
    unfolding update_user get_user_by_name
    found e ok = elim (Bool-cases (trim_space b.password == "")) [
      | inl kept ↦ old_password e kept ok
      | inr new ↦ elim (Option-cases (k.hash_password b.password)) [
        | inl failed ↦ ground arith
        | inr (hash, e') ↦ new_password hash e new e' ok
      ]
    ]

  not_found :
      (w : World D) (c : Context) (b : UserBody)
      → IsGoverned D w.dir
      → D.read w.dir b.previous_username ≡ none
      → KeepsGoverned w c (some b)
  unfolding update_user get_user_by_name
  not_found w c b g e ok = ground arith

  bad_body : (w : World D) (c : Context) → IsGoverned D w.dir → KeepsGoverned w c none
  unfolding update_user
  bad_body w c g ok = g

  pub update_user-IsGoverned :
      (w : World D) (c : Context) (b : Option UserBody)
      → IsGoverned D w.dir
      → (update_user D k cfg w c b).2 ≢ json 500 false failure
      → IsGoverned D (update_user D k cfg w c b).0.dir
  update_user-IsGoverned w c none g ok = bad_body w c g ok
  update_user-IsGoverned w c (some b) g ok =
      elim (Option-cases (D.read w.dir b.previous_username)) [
        | inl e ↦ not_found w c b g e ok
        | inr (u, e) ↦ found w c b u g e ok
      ]
