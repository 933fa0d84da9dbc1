-- ===== src/Users/Passkeys/Ceremony.antt =====
-- What the ceremonies of handler/passkeys.go share: the library that carries them out, the maps
-- `passkeyRegSessions` and `passkeyLoginSessions`, and the session's values that name their entries.
use Prim.Native.String
use wireguard_ui.Prelude.{
  String, ◌≡◌, refl, Option, none, some, List, [], ◌∷◌, ◌==◌, if◌then◌else◌, arith,
}
use wireguard_ui.Store.{Driver}
use wireguard_ui.Session.Values.{Context, Reply}
use wireguard_ui.Session.{save}
use wireguard_ui.Users.{Credential, User, World}

-- `webauthn.WebAuthn` with its session data, the options that it sends and the bodies that it reads;
-- `none` is an error. `finish_discoverable` calls the given search of a user by a credential's id.
pub record WebAuthn : Type 1 where
  pub Data : Type 0
  pub Options : Type 0
  pub Body : Type 0
  pub begin_registration : User → Option (Options × Data)
  pub finish_registration : User → Data → Body → Option Credential
  pub begin_login : User → Option (Options × Data)
  pub begin_discoverable : Option (Options × Data)
  pub finish_login : User → Data → Body → Option Credential
  pub finish_discoverable : (String → Option User) → Data → Body → Option (User × Credential)

-- A map as an association list: an entry hides the later ones of its key.
module _ {ℓ} {A : Type ℓ} where
  unfoldable pub get_entry : String → List (String × A) → Option A
  get_entry k [] = none
  get_entry k ((j, a) ∷ m) = if j == k then some a else get_entry k m

  unfoldable pub delete_entry : String → List (String × A) → List (String × A)
  delete_entry k [] = []
  delete_entry k ((j, a) ∷ m) =
      let rest = delete_entry k m in if j == k then rest else (j, a) ∷ rest

  pub get_entry-delete_entry :
      (k : String) (m : List (String × A)) → get_entry k (delete_entry k m) ≡ none
  unfolding get_entry delete_entry
  get_entry-delete_entry k [] = refl
  get_entry-delete_entry k ((j, a) ∷ m) = ground (arith, get_entry-delete_entry k m)

-- A text of the session's values: the empty text where there is none.
unfoldable pub held_token : String → List (String × String) → String
unfolding get_entry
held_token k m = elim (get_entry k m) [ none ↦ "" | some t ↦ t ]

abbrev pub registration_key : String → String
registration_key name = String.◌++◌ "passkey_reg_" name

abbrev pub login_key : String → String
login_key name = String.◌++◌ "passkey_login_" name

abbrev pub discoverable_key : String
discoverable_key = "passkey_login_discoverable"

module _ (D : Driver User) (a : WebAuthn) where
  -- The users, the request with the other values of its session, what the browser holds of these
  -- after the answer, and the two maps.
  pub record Desk : Type 0 where
    pub world : World D
    pub request : Context
    pub held : List (String × String)
    pub saved_held : List (String × String)
    pub registrations : List (String × a.Data)
    pub logins : List (String × a.Data)

  -- `sess.Save`
  unfoldable pub save_desk : Desk → Desk
  unfolding save
  save_desk d = record d {
    request = save d.request;
    saved_held = if d.request.saves then d.held else d.saved_held;
  }

  -- The answer, or the options with which the browser asks its authenticator.
  pub data DeskReply : Type 0 where
    answers : Reply → DeskReply
    offers : a.Options → DeskReply
