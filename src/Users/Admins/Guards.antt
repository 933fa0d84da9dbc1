-- ===== src/Users/Admins/Guards.antt =====
-- The guards of handler/routes.go on the last administrator find another active one.
use Prim.Native.Nat.{◌<◌}
use wireguard_ui.Prelude.{
  String, ◌≡◌, inl, inr, true, Option, none, some, List, [], ◌∷◌, ◌==◌, eq_iff, All, Bool-cases,
  Option-cases, arith,
}
use wireguard_ui.Store.{Driver, IsDriver, IsStored}
use wireguard_ui.Users.{
  User, World, decode_users, get_users, other_admins, has_other, ensure_can_demote,
  ensure_leaving_active_admin_when_disabling,
}
use wireguard_ui.Users.Admins.{is_active, IsKeyed, HasAdmin, HasOther, HasOther-of_inactive}

module _ {D : Driver User} where
  -- A counted user is stored under its own name, which is another one.
  HasOther-of_count :
      (d : D.Dir) (name : String) (rs : List (Option User)) (us : List User)
      → IsKeyed D d
      → All (IsStored D d) rs
      → decode_users D rs ≡ some us
      → 0 < other_admins D name us
      → HasOther D d name
  unfolding decode_users other_admins HasOther
  HasOther-of_count d name [] us h s e p = absurd (ground arith)
  HasOther-of_count d name (none ∷ rs) us h s e p = absurd (ground arith)
  HasOther-of_count d name (some u ∷ rs) [] h s e p = absurd (ground arith)
  HasOther-of_count d name (some u ∷ rs) (v ∷ us) h ((k, at), s) e p =
      elim (Bool-cases (u.username == name)) [
        | inl same ↦ HasOther-of_count d name rs us h s (ground arith) (ground arith)
        | inr ne ↦ elim (Bool-cases (is_active u)) [
          | inl a ↦ (
            u.username,
            u,
            cc (h.at k u at),
            a,
            ground (arith, eq_iff u.username name, eq_iff name u.username),
          )
          | inr i ↦ HasOther-of_count d name rs us h s (ground arith) (ground arith)
        ]
      ]

module _ {D : Driver User} (laws : IsDriver D) (w : World D) (keyed : IsKeyed D w.dir) where
  HasOther-of_has_other :
      (name : String) → has_other D (get_users D w) name ≡ true → HasOther D w.dir name
  unfolding get_users
  HasOther-of_has_other name h = elim (Option-cases (D.read_all w.dir)) [
    | inl e ↦ absurd (ground arith)
    | inr (rs, e) ↦ elim (Option-cases (decode_users D rs)) [
      | inl e' ↦ absurd (ground arith)
      | inr (us, e') ↦
          HasOther-of_count w.dir name rs us keyed (laws.read_all-IsStored w.dir rs e) e'
            (ground arith)
    ]
  ]

  pub HasOther-of_demote :
      (name : String) (u : User)
      → D.read w.dir name ≡ some u
      → u.admin ≡ true
      → ensure_can_demote D w name ≡ true
      → HasOther D w.dir name
  unfolding ensure_can_demote
  HasOther-of_demote name u e a h = HasOther-of_has_other name (ground arith)

  pub HasOther-of_disable :
      (name : String) (u : User)
      → HasAdmin D w.dir
      → D.read w.dir name ≡ some u
      → ensure_leaving_active_admin_when_disabling D w name ≡ true
      → HasOther D w.dir name
  unfolding ensure_leaving_active_admin_when_disabling
  HasOther-of_disable name u has e h = elim (Bool-cases (is_active u)) [
    | inl a ↦ HasOther-of_has_other name (ground arith)
    | inr i ↦ HasOther-of_inactive laws w.dir name u has e i
  ]
