-- ===== src/Users/Passkeys/Cleared.antt =====
-- The clearing of all stored credentials.
use wireguard_ui.Prelude.{
  String, Bool, true, ◌≡◌, refl, sym, subst, ◌⊎◌, inl, inr, Option, none, some, List, [], ◌∷◌, ◌==◌,
  eq_iff, All, Bool-cases, List-cases, arith,
}
use wireguard_ui.Store.{Driver, IsDriver}
use wireguard_ui.Users.{User, Crypto, World, get_users, get_user_by_name, save_user}
use wireguard_ui.Users.Passkeys.{clear_each, clear_stored_passkeys_for_all_users}

-- No record with a credential.
abbrev pub HasNone : Option User → Type 0
HasNone none = Unit
HasNone (some u) = u.passkeys ≡ []

module _ (D : Driver User) where
  -- The user's record is the one listed.
  abbrev pub IsKeyed : World D → User → Type 0
  IsKeyed w u = get_user_by_name D w u.username ≡ some u

  abbrev pub IsCleared : World D → User → Type 0
  IsCleared w u = HasNone (get_user_by_name D w u.username)

  IsWaiting : World D → User → Type 0
  IsWaiting w u = IsKeyed w u ⊎ IsCleared w u

module _ {D : Driver User} (laws : IsDriver D) (k : Crypto) where
  -- A record after a save is the one before or the one saved.
  get_user_by_name-save_user :
      (w : World D) (u : User) (name : String)
      → (get_user_by_name D (save_user D k u w).0 name ≡ get_user_by_name D w name)
        ⊎ (get_user_by_name D (save_user D k u w).0 name ≡ some u)
  unfolding save_user get_user_by_name
  get_user_by_name-save_user w u name = elim (Bool-cases (D.write w.dir u.username u).1) [
    | inl written ↦ elim (Bool-cases (u.username == name)) [
      | inl same ↦ inr (ground (arith, laws.read-write w.dir u.username u name written))
      | inr other ↦ inl (ground (arith, laws.read-write w.dir u.username u name written))
    ]
    | inr failed ↦ inl (ground (arith, laws.read-write_failed w.dir u.username u name failed))
  ]

  save-IsCleared :
      (w : World D) (u v : User)
      → u.passkeys ≡ []
      → IsCleared D w v
      → IsCleared D (save_user D k u w).0 v
  save-IsCleared w u v e h = elim (get_user_by_name-save_user w u v.username) [
    | inl kept ↦ rw kept h
    | inr new ↦ rw new e
  ]

  save-IsWaiting :
      (w : World D) (u v : User)
      → u.passkeys ≡ []
      → IsWaiting D w v
      → IsWaiting D (save_user D k u w).0 v
  unfolding IsWaiting
  save-IsWaiting w u v e (inr h) = inr (save-IsCleared w u v e h)
  save-IsWaiting w u v e (inl h) = elim (get_user_by_name-save_user w u v.username) [
    | inl kept ↦ inl (rw kept h)
    | inr new ↦ inr (rw new e)
  ]

  IsWaiting-save_each :
      (w : World D) (u : User) (us : List User)
      → u.passkeys ≡ []
      → All (IsWaiting D w) us
      → All (IsWaiting D (save_user D k u w).0) us
  IsWaiting-save_each w u [] e h = tt
  IsWaiting-save_each w u (v ∷ vs) e h =
      (save-IsWaiting w u v e h.0, IsWaiting-save_each w u vs e h.1)

  saved_record :
      (w : World D) (u : User)
      → (save_user D k u w).1 ≡ true
      → get_user_by_name D (save_user D k u w).0 u.username ≡ some u
  unfolding save_user get_user_by_name
  saved_record w u done =
      ground (arith, laws.read-write w.dir u.username u u.username, eq_iff u.username u.username)

  clear_each-IsCleared :
      (us : List User) (w : World D) (v : User)
      → IsCleared D w v
      → IsCleared D (clear_each D k us w).0 v
  unfolding clear_each
  clear_each-IsCleared [] w v h = h
  clear_each-IsCleared (u ∷ us) w v h = elim (List-cases u.passkeys) [
    | inl e ↦ rw e (clear_each-IsCleared us w v h)
    | inr (pk, pks, e) ↦
        let saved = save-IsCleared w (record u { passkeys = [] }) v refl h in
        rw e (ground (arith, saved, clear_each-IsCleared us _ v saved))
  ]

  waiting_without : (w : World D) (u : User) → u.passkeys ≡ [] → IsWaiting D w u → IsCleared D w u
  unfolding IsWaiting
  waiting_without w u e (inl h) = rw h e
  waiting_without w u e (inr h) = h

  -- A turn of the loop that ends well skips the user, or saves it with no credential.
  turn :
      (u : User) (us : List User) (w : World D)
      → (clear_each D k (u ∷ us) w).1 ≡ true
      → ((u.passkeys ≡ []) × (clear_each D k (u ∷ us) w ≡ clear_each D k us w))
        ⊎ (((save_user D k (record u { passkeys = [] }) w).1 ≡ true)
            × (clear_each D k (u ∷ us) w
                ≡ clear_each D k us (save_user D k (record u { passkeys = [] }) w).0))
  unfolding clear_each
  turn u us w done = elim (List-cases u.passkeys) [
    | inl e ↦ inl (e, ground (arith, e))
    | inr (pk, pks, e) ↦ inr (ground (arith, e), ground (arith, e))
  ]

  clear_each-clears :
      (us : List User) (w : World D)
      → All (IsWaiting D w) us
      → (clear_each D k us w).1 ≡ true
      → All (IsCleared D (clear_each D k us w).0) us
  clear_each-clears [] w h done = tt
  clear_each-clears (u ∷ us) w h done = elim (turn u us w done) [
    | inl (e, skip) ↦
        let rest : (clear_each D k us w).1 ≡ true = rw skip at done in
        subst (λ (o : World D × Bool). All (IsCleared D o.0) (u ∷ us)) (sym skip)
          (clear_each-IsCleared us w u (waiting_without w u e h.0), clear_each-clears us w h.1 rest)
    | inr (saved, step) ↦
        let u' : User = record u { passkeys = [] } in
        let w' = (save_user D k u' w).0 in
        let rest : (clear_each D k us w').1 ≡ true = rw step at done in
        subst (λ (o : World D × Bool). All (IsCleared D o.0) (u ∷ us)) (sym step)
          (
            clear_each-IsCleared us w' u (rw (saved_record w u' saved) refl),
            clear_each-clears us w' (IsWaiting-save_each w u' us refl h.1) rest,
          )
  ]

  IsWaiting-All : (w : World D) (us : List User) → All (IsKeyed D w) us → All (IsWaiting D w) us
  unfolding IsWaiting
  IsWaiting-All w [] h = tt
  IsWaiting-All w (u ∷ us) h = (inl h.0, IsWaiting-All w us h.1)

  -- On a driver with the stated laws, when all users are read, each under its own name, and the
  -- clearing succeeds, no record under the name of one of them has a credential.
  pub clear_stored_passkeys_for_all_users_lem :
      (w : World D) (us : List User)
      → get_users D w ≡ some us
      → All (IsKeyed D w) us
      → (clear_stored_passkeys_for_all_users D k w).1 ≡ true
      → All (IsCleared D (clear_stored_passkeys_for_all_users D k w).0) us
  unfolding clear_stored_passkeys_for_all_users
  clear_stored_passkeys_for_all_users_lem w us e h done =
      let step : clear_stored_passkeys_for_all_users D k w ≡ clear_each D k us w =
        ground (arith, e) in
      subst (λ (o : World D × Bool). All (IsCleared D o.0) us) (sym step)
        (clear_each-clears us w (IsWaiting-All w us h) (rw step at done))
