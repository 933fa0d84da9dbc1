-- ===== src/Telegram/Index.antt =====
-- The functions on the map keep its keys distinct, and attach a client to one user only.
use wireguard_ui.Prelude.{
  String, ◌≡◌, ◌↔◌, refl, true, false, List, [], ◌∷◌, ◌++◌, ◌==◌, eq_iff, contains, if◌then◌else◌,
  arith,
}
use wireguard_ui.Session.Values.{ℤ}
use wireguard_ui.Telegram.{
  TgMap, int_eq, filter_string_slice, is_empty, remove_tg_to_client_id, add_tg_to_client_id,
  update_tg_to_client_id, clients_of, has_user,
}

pub int_eq_iff : (a b : ℤ) → (int_eq a b ≡ true) ↔ (a ≡ b)
int_eq_iff a b = ground arith

-- The keys are distinct, and no slice is empty.
abbrev pub IsMap : TgMap → Type 0
IsMap [] = Unit
IsMap ((uid, cls) ∷ m) = (has_user m uid ≡ false) × (is_empty cls ≡ false) × IsMap m

has_user-remove :
    (id : String) (m : TgMap) (v : ℤ)
    → has_user m v ≡ false
    → has_user (remove_tg_to_client_id id m) v ≡ false
unfolding has_user remove_tg_to_client_id
has_user-remove id [] v h = refl
has_user-remove id ((uid, cls) ∷ m) v h = ground (arith, has_user-remove id m v)

pub remove-IsMap : (id : String) (m : TgMap) → IsMap m → IsMap (remove_tg_to_client_id id m)
unfolding remove_tg_to_client_id
remove-IsMap id [] h = tt
remove-IsMap id ((uid, cls) ∷ m) h = ground (arith, has_user-remove id m uid, remove-IsMap id m)

has_user-add :
    (u : ℤ) (id : String) (m : TgMap) (v : ℤ)
    → has_user (add_tg_to_client_id u id m) v ≡ (if int_eq u v then true else has_user m v)
unfolding has_user add_tg_to_client_id
has_user-add u id [] v = refl
has_user-add u id ((uid, cls) ∷ m) v =
    ground (arith, has_user-add u id m v, int_eq_iff u v, int_eq_iff uid v, int_eq_iff uid u)

is_empty-append : (cls : List String) (id : String) → is_empty (cls ++ id ∷ []) ≡ false
is_empty-append [] id = refl
is_empty-append (c ∷ cls) id = refl

pub add-IsMap : (u : ℤ) (id : String) (m : TgMap) → IsMap m → IsMap (add_tg_to_client_id u id m)
unfolding add_tg_to_client_id has_user
add-IsMap u id [] h = (refl, refl, tt)
add-IsMap u id ((uid, cls) ∷ m) h = ground (
  arith,
  add-IsMap u id m,
  has_user-add u id m uid,
  is_empty-append cls id,
  int_eq_iff uid u,
  int_eq_iff u uid,
)

clients_of_absent : (m : TgMap) (v : ℤ) → has_user m v ≡ false → clients_of m v ≡ []
unfolding clients_of has_user
clients_of_absent [] v h = refl
clients_of_absent ((uid, cls) ∷ m) v h = ground (arith, clients_of_absent m v)

is_empty_nil : (l : List String) → is_empty l ≡ true → l ≡ []
is_empty_nil [] h = refl
is_empty_nil (x ∷ l) h = cc

clients_of-remove :
    (id : String) (m : TgMap) (v : ℤ)
    → IsMap m
    → clients_of (remove_tg_to_client_id id m) v ≡ filter_string_slice (clients_of m v) id
unfolding clients_of remove_tg_to_client_id
clients_of-remove id [] v h = refl
clients_of-remove id ((uid, cls) ∷ m) v h = ground (
  arith,
  clients_of-remove id m v,
  clients_of_absent (remove_tg_to_client_id id m) v,
  has_user-remove id m uid,
  int_eq_iff uid v,
  is_empty_nil (filter_string_slice cls id),
)

clients_of-add :
    (u : ℤ) (id : String) (m : TgMap) (v : ℤ)
    → clients_of (add_tg_to_client_id u id m) v
      ≡ (if int_eq u v then clients_of m v ++ id ∷ [] else clients_of m v)
unfolding clients_of add_tg_to_client_id
clients_of-add u id [] v = ground arith
clients_of-add u id ((uid, cls) ∷ m) v =
    ground (arith, clients_of-add u id m v, int_eq_iff u v, int_eq_iff uid v, int_eq_iff uid u)

contains-filter :
    (l : List String) (id d : String)
    → contains (filter_string_slice l id) d ≡ (if d == id then false else contains l d)
unfolding filter_string_slice
contains-filter [] id d = ground arith
contains-filter (x ∷ l) id d =
    ground (arith, contains-filter l id d, eq_iff x id, eq_iff x d, eq_iff d id)

contains-add :
    (l : List String) (id d : String)
    → contains (l ++ id ∷ []) d ≡ (if id == d then true else contains l d)
contains-add [] id d = refl
contains-add (x ∷ l) id d = ground (arith, contains-add l id d)

-- After `RemoveTgToClientID` no user has the client, and the others are where they were.
pub remove_tg_to_client_id_lem :
    (id d : String) (m : TgMap) (v : ℤ)
    → IsMap m
    → contains (clients_of (remove_tg_to_client_id id m) v) d
      ≡ (if d == id then false else contains (clients_of m v) d)
remove_tg_to_client_id_lem id d m v h =
    ground (arith, clients_of-remove id m v h, contains-filter (clients_of m v) id d)

-- On a map with one entry for a user and no empty entry, after `UpdateTgToClientID` the client is
-- with the given user and no other one, and the others are where they were.
pub update_tg_to_client_id_lem :
    (u : ℤ) (id d : String) (m : TgMap) (v : ℤ)
    → IsMap m
    → contains (clients_of (update_tg_to_client_id u id m) v) d
      ≡ (if d == id then int_eq u v else contains (clients_of m v) d)
unfolding update_tg_to_client_id
update_tg_to_client_id_lem u id d m v h = ground (
  arith,
  clients_of-add u id (remove_tg_to_client_id id m) v,
  remove_tg_to_client_id_lem id d m v h,
  contains-add (clients_of (remove_tg_to_client_id id m) v) id d,
  eq_iff d id,
  eq_iff id d,
)

pub update-IsMap :
    (u : ℤ) (id : String) (m : TgMap) → IsMap m → IsMap (update_tg_to_client_id u id m)
unfolding update_tg_to_client_id
update-IsMap u id m h = add-IsMap u id _ (remove-IsMap id m h)
