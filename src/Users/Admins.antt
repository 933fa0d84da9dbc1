-- ===== src/Users/Admins.antt =====
-- The active administrators in the collection of users, and what single writes do to them.
pub mod Guards
use wireguard_ui.Prelude.{
  String, ◌≡◌, ◌∙◌, ◌⊎◌, inl, inr, Bool, true, false, not, ◌&&◌, none, some, ◌==◌, eq_iff, eq_refl,
  Bool-cases, arith,
}
use wireguard_ui.Store.{Driver, IsDriver}
use wireguard_ui.Users.{User}

abbrev pub is_active : User → Bool
is_active u = u.admin && not u.disabled

module _ (D : Driver User) where
  -- Each record is stored under its user's name.
  pub record IsKeyed (d : D.Dir) : Type 0 where
    pub at : (name : String) (u : User) → D.read d name ≡ some u → u.username ≡ name

  -- There is an active administrator.
  unfoldable pub HasAdmin : D.Dir → Type 0
  HasAdmin d = (j : String) × (u : User) × (D.read d j ≡ some u) × (is_active u ≡ true)

  -- There is one under another name.
  unfoldable pub HasOther : D.Dir → String → Type 0
  HasOther d k =
      (j : String) × (u : User) × (D.read d j ≡ some u) × (is_active u ≡ true) × ((k == j) ≡ false)

module _ {D : Driver User} (laws : IsDriver D) where
  pub write-IsKeyed : (d : D.Dir) (v : User) → IsKeyed D d → IsKeyed D (D.write d v.username v).0
  write-IsKeyed d v h = record {
    at = λ name u e. elim (Bool-cases (D.write d v.username v).1) [
      | inl done ↦
          ground
            (arith, laws.read-write d v.username v name done, h.at name u, eq_iff v.username name)
      | inr failed ↦ ground (arith, laws.read-write_failed d v.username v name failed, h.at name u)
    ];
  }

  pub delete-IsKeyed : (d : D.Dir) (k : String) → IsKeyed D d → IsKeyed D (D.delete d k).0
  delete-IsKeyed d k h = record {
    at = λ name u e. elim (Bool-cases (D.delete d k).1) [
      | inl done ↦ ground (arith, laws.read-delete d k name done, h.at name u)
      | inr failed ↦ ground (arith, laws.read-delete_failed d k name failed, h.at name u)
    ];
  }

  pub write-HasAdmin_of_other :
      (d : D.Dir) (k : String) (v : User) → HasOther D d k → HasAdmin D (D.write d k v).0
  unfolding HasOther HasAdmin
  write-HasAdmin_of_other d k v (j, u, e, a, ne) = elim (Bool-cases (D.write d k v).1) [
    | inl done ↦ (j, u, (laws.read-write d k v j done ∙ rw ne e), a)
    | inr failed ↦ (j, u, (laws.read-write_failed d k v j failed ∙ e), a)
  ]

  pub delete-HasAdmin_of_other :
      (d : D.Dir) (k : String) → HasOther D d k → HasAdmin D (D.delete d k).0
  unfolding HasOther HasAdmin
  delete-HasAdmin_of_other d k (j, u, e, a, ne) = elim (Bool-cases (D.delete d k).1) [
    | inl done ↦ (j, u, (laws.read-delete d k j done ∙ rw ne e), a)
    | inr failed ↦ (j, u, (laws.read-delete_failed d k j failed ∙ e), a)
  ]

  pub write-HasAdmin_of_active :
      (d : D.Dir) (k : String) (v : User)
      → HasAdmin D d
      → is_active v ≡ true
      → HasAdmin D (D.write d k v).0
  unfolding HasAdmin
  write-HasAdmin_of_active d k v (j, u, e, a) av = elim (Bool-cases (D.write d k v).1) [
    | inl done ↦ (k, v, (laws.read-write d k v k done ∙ rw (eq_refl k)), av)
    | inr failed ↦ (j, u, (laws.read-write_failed d k v j failed ∙ e), a)
  ]

  -- The administrator is the one under `k`, or there is another one.
  pub HasAdmin-cases :
      (d : D.Dir) (k : String)
      → HasAdmin D d
      → ((u : User) × (D.read d k ≡ some u) × (is_active u ≡ true)) ⊎ HasOther D d k
  unfolding HasAdmin HasOther
  HasAdmin-cases d k (j, u, e, a) = elim (Bool-cases (k == j)) [
    | inl same ↦ inl (u, rw ((eq_iff k j).0 same) e, a)
    | inr ne ↦ inr (j, u, e, a, ne)
  ]

  -- Where the record under `k` is not an active administrator there is another one.
  pub HasOther-of_inactive :
      (d : D.Dir) (k : String) (u : User)
      → HasAdmin D d
      → D.read d k ≡ some u
      → is_active u ≡ false
      → HasOther D d k
  HasOther-of_inactive d k u h e i = elim (HasAdmin-cases d k h) [
    | inl (v, ev, av) ↦ absurd (ground arith)
    | inr o ↦ o
  ]

  pub HasOther-of_absent :
      (d : D.Dir) (k : String) → HasAdmin D d → D.read d k ≡ none → HasOther D d k
  HasOther-of_absent d k h e = elim (HasAdmin-cases d k h) [
    | inl (v, ev, av) ↦ absurd (ground arith)
    | inr o ↦ o
  ]

  -- A record under `k` is replaced by one that is as much an active administrator.
  pub write-HasAdmin_of_same :
      (d : D.Dir) (k : String) (u v : User)
      → HasAdmin D d
      → D.read d k ≡ some u
      → (is_active u ≡ true → is_active v ≡ true)
      → HasAdmin D (D.write d k v).0
  write-HasAdmin_of_same d k u v h e same = elim (Bool-cases (is_active u)) [
    | inl a ↦ write-HasAdmin_of_active d k v h (same a)
    | inr i ↦ write-HasAdmin_of_other d k v (HasOther-of_inactive d k u h e i)
  ]
