-- ===== src/Users/Run.antt =====
-- A history of requests to the handlers that change users.
use wireguard_ui.Prelude.{String, ◌≢◌, false, Option, List, [], ◌∷◌}
use wireguard_ui.Store.{Driver, IsDriver}
use wireguard_ui.Session.Values.{Config, Context, json, failure}
use wireguard_ui.Users.{User, Crypto, World}
use wireguard_ui.Users.Handlers.{
  UserBody, FlagBody, Outcome, create_user, remove_user, set_user_admin, set_user_disabled,
  revoke_user_sessions,
}
use wireguard_ui.Users.Update.{update_user}
use wireguard_ui.Users.Keeps.{
  IsGoverned, create_user-IsGoverned, remove_user-IsGoverned, set_user_admin-IsGoverned,
  set_user_disabled-IsGoverned, revoke_user_sessions-IsGoverned,
}
use wireguard_ui.Users.Keeps.Update.{update_user-IsGoverned}

-- A request's route and decoded body.
pub data UserRequest : Type 0 where
  creates updates : Option UserBody → UserRequest
  removes revokes : Option String → UserRequest
  sets_admin sets_disabled : Option FlagBody → UserRequest

module _ (D : Driver User) (k : Crypto) (cfg : Config) where
  unfoldable pub serve : World D → Context × UserRequest → Outcome D
  serve w (c, creates b) = create_user D k cfg w c b
  serve w (c, updates b) = update_user D k cfg w c b
  serve w (c, removes b) = remove_user D k cfg w c b
  serve w (c, revokes b) = revoke_user_sessions D k cfg w c b
  serve w (c, sets_admin b) = set_user_admin D k cfg w c b
  serve w (c, sets_disabled b) = set_user_disabled D k cfg w c b

  unfoldable pub run : World D → List (Context × UserRequest) → World D
  unfolding serve
  run w [] = w
  run w (r ∷ rs) = run (serve w r).0 rs

  -- No request of the history is answered with a failure of the database.
  abbrev pub NoFailure : World D → List (Context × UserRequest) → Type 0
  NoFailure w [] = Unit
  NoFailure w (r ∷ rs) = ((serve w r).2 ≢ json 500 false failure) × NoFailure (serve w r).0 rs

module _ {D : Driver User} (laws : IsDriver D) (k : Crypto) (cfg : Config) where
  serve-IsGoverned :
      (w : World D) (r : Context × UserRequest)
      → IsGoverned D w.dir
      → (serve D k cfg w r).2 ≢ json 500 false failure
      → IsGoverned D (serve D k cfg w r).0.dir
  unfolding serve
  serve-IsGoverned w (c, creates b) g ok = create_user-IsGoverned laws k cfg w c b g
  serve-IsGoverned w (c, updates b) g ok = update_user-IsGoverned laws k cfg w c b g ok
  serve-IsGoverned w (c, removes b) g ok = remove_user-IsGoverned laws k cfg w c b g
  serve-IsGoverned w (c, revokes b) g ok = revoke_user_sessions-IsGoverned laws k cfg w c b g
  serve-IsGoverned w (c, sets_admin b) g ok = set_user_admin-IsGoverned laws k cfg w c b g
  serve-IsGoverned w (c, sets_disabled b) g ok = set_user_disabled-IsGoverned laws k cfg w c b g

  -- Over any history of requests, by whomever, that a driver with the stated laws serves and none of
  -- which is answered with a failure of the database, the collection of users stays keyed by name
  -- and keeps an administrator who is not disabled, if it starts so.
  pub run-IsGoverned :
      (w : World D) (rs : List (Context × UserRequest))
      → IsGoverned D w.dir
      → NoFailure D k cfg w rs
      → IsGoverned D (run D k cfg w rs).dir
  unfolding run
  run-IsGoverned w [] g ok = g
  run-IsGoverned w (r ∷ rs) g ok =
      run-IsGoverned (serve D k cfg w r).0 rs (serve-IsGoverned w r g ok.0) ok.1
