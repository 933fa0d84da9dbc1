-- ===== src/Users.antt =====
-- The users: model/user.go, the user methods of store/jsondb/jsondb.go with the cache
-- `DBUsersToCRC32` of util/cache.go, `GetDBUserCRC32` of util/util.go and the guards of
-- handler/routes.go on the last administrator. The handlers are in the children.
pub mod Handlers
pub mod Update
pub mod Login
pub mod Admins
pub mod Keeps
pub mod Run
pub mod Revocation
pub mod Passkeys
pub mod Digest
use Prim.Native.String.{compare}
use wireguard_ui.Prelude.{
  ℕ, zero, suc, String, Bool, true, false, not, ◌&&◌, ◌||◌, Option, none, some, List, [], ◌∷◌, ◌==◌,
  contains, if◌then◌else◌, Ordering,
}
use wireguard_ui.Text.{trim_space}
use wireguard_ui.Store.{Driver}

-- `webauthn.Credential`: its ID in the form of `base64.RawURLEncoding`, which is empty for the
-- empty ID only, and its signature counter, which every login changes.
pub record Credential : Type 0 where
  pub id : String
  pub sign_count : ℕ

pub record User : Type 0 where
  pub username : String
  pub password : String
  pub password_hash : String
  pub admin : Bool
  pub disabled : Bool
  pub auth_epoch : ℕ
  pub display_name : String
  pub email : String
  pub passkey_labels : List (String × String)
  pub passkeys : List Credential

abbrev pub no_user : User
no_user = record {
  username = "";
  password = "";
  password_hash = "";
  admin = false;
  disabled = false;
  auth_epoch = 0;
  display_name = "";
  email = "";
  passkey_labels = [];
  passkeys = [];
}

-- The struct that `GetDBUserCRC32` marshals.
pub record Snapshot : Type 0 where
  pub username : String
  pub password : String
  pub password_hash : String
  pub admin : Bool
  pub disabled : Bool
  pub auth_epoch : ℕ
  pub display_name : String
  pub email : String
  pub passkey_ids : List String
  pub labels : List (String × String)

-- `sort.Strings`
insert_sorted : String → List String → List String
insert_sorted s [] = s ∷ []
insert_sorted s (t ∷ ts) = elim (compare s t) [
  | Ordering.gt ↦ t ∷ insert_sorted s ts
  | _ ↦ s ∷ t ∷ ts
]

unfoldable pub sort_strings : List String → List String
unfolding insert_sorted
sort_strings [] = []
sort_strings (s ∷ ss) = insert_sorted s (sort_strings ss)

unfoldable pub credential_ids : List Credential → List String
credential_ids [] = []
credential_ids (pk ∷ pks) =
    let rest = credential_ids pks in if pk.id == "" then rest else pk.id ∷ rest

-- `labels[k] = v`
unfoldable pub put_label : String → String → List (String × String) → List (String × String)
put_label k v [] = (k, v) ∷ []
put_label k v ((j, w) ∷ m) = if j == k then (k, v) ∷ m else (j, w) ∷ put_label k v m

-- The loop over `PasskeyLabels`, in the order of the iteration.
unfoldable pub kept_labels :
    List String → List (String × String) → List (String × String) → List (String × String)
unfolding put_label
kept_labels ids [] out = out
kept_labels ids ((k, v) ∷ m) out =
    let key = trim_space k in
    kept_labels ids m (
      if key == "" then out else if contains ids key then put_label key (trim_space v) out else out)

unfoldable pub snapshot : User → Snapshot
unfolding sort_strings credential_ids kept_labels
snapshot u =
    let ids = sort_strings (credential_ids u.passkeys) in
    record {
      username = u.username;
      password = u.password;
      password_hash = u.password_hash;
      admin = u.admin;
      disabled = u.disabled;
      auth_epoch = u.auth_epoch;
      display_name = trim_space u.display_name;
      email = trim_space u.email;
      passkey_ids = ids;
      labels = kept_labels ids u.passkey_labels [];
    }

-- The CRC-32 of a snapshot's JSON, and what the handlers take from `golang.org/x/crypto/bcrypt`:
-- `HashPassword`, which may fail, and `VerifyHash`, which is `none` on an error.
pub record Crypto : Type 0 where
  pub checksum : Snapshot → ℕ
  pub hash_password : String → Option String
  pub verify_hash : String → String → Option Bool

unfoldable pub user_crc32 : Crypto → User → ℕ
user_crc32 k u = k.checksum (snapshot u)

-- The collection `users` and the cache of checksums.
pub record World (D : Driver User) : Type 0 where
  pub dir : D.Dir
  pub crc : String → Option ℕ

abbrev pub update : (String → Option ℕ) → String → Option ℕ → String → Option ℕ
update m k v j = if k == j then v else m j

module _ (D : Driver User) where
  decode_users : List (Option User) → Option (List User)
  decode_users [] = some []
  decode_users (none ∷ rs) = none
  decode_users (some u ∷ rs) = elim (decode_users rs) [ none ↦ none | some us ↦ some (u ∷ us) ]

  unfoldable pub get_users : World D → Option (List User)
  unfolding decode_users
  get_users w = elim (D.read_all w.dir) [ none ↦ none | some rs ↦ decode_users rs ]

  unfoldable pub get_user_by_name : World D → String → Option User
  get_user_by_name w name = D.read w.dir name

  -- The file is written before its mode is changed, and the cache follows when that succeeds.
  unfoldable pub save_user : Crypto → User → World D → World D × Bool
  save_user k u w =
      let (dir, written) = D.write w.dir u.username u in
      if D.chmod dir u.username
      then (record w { dir = dir; crc = update w.crc u.username (some (user_crc32 k u)) }, written)
      else (record w { dir = dir }, false)

  unfoldable pub delete_user : String → World D → World D × Bool
  delete_user name w =
      let (dir, deleted) = D.delete w.dir name in
      (record w { dir = dir; crc = update w.crc name none }, deleted)

  -- `others` of the two guards below
  unfoldable pub other_admins : String → List User → ℕ
  other_admins name [] = 0
  other_admins name (u ∷ us) =
      let rest = other_admins name us in
      if u.username == name then rest else if u.admin && not u.disabled then suc rest else rest

  abbrev pub has_other : Option (List User) → String → Bool
  has_other none name = false
  has_other (some us) name = elim (other_admins name us) [ zero ↦ false | suc n ↦ true ]

  -- `true` where the source returns no error
  unfoldable pub ensure_can_demote : World D → String → Bool
  unfolding get_users get_user_by_name
  ensure_can_demote w name = elim (get_user_by_name w name) [
    | none ↦ false
    | some target ↦ if not target.admin then true else has_other (get_users w) name
  ]

  unfoldable pub ensure_leaving_active_admin_when_disabling : World D → String → Bool
  unfolding get_users get_user_by_name
  ensure_leaving_active_admin_when_disabling w name = elim (get_user_by_name w name) [
    | none ↦ false
    | some target ↦
        if not target.admin || target.disabled then true else has_other (get_users w) name
  ]
