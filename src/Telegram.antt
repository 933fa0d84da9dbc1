-- ===== src/Telegram.antt =====
-- The map `TgUseridToClientID` of util/cache.go, from Telegram user ids to the ids of clients, and
-- the functions of util/util.go that change it under its mutex. A slice in it is never nil.
pub mod Index
use Prim.Native.Char.{code}
use Prim.Native.String
use wireguard_ui.Prelude.{
  ℕ, zero, suc, ◌+◌, ◌-◌, ◌*◌, ◌^◌, String, Bool, true, false, ◌&&◌, Option, none, some, List, [],
  ◌∷◌, ◌++◌, ◌==◌, leb, nat_eq, if◌then◌else◌,
}
use wireguard_ui.Session.Values.{ℤ, pos, negsuc}

-- The digits of `strconv.ParseInt(s, 10, 64)`, after at least one.
digits_from : ℕ → String → Option ℕ
digits_from n String.[] = some n
digits_from n (String.◌∷◌ c s) =
    let rest = digits_from (n * 10 + (code c - 48)) s in
    if leb 48 (code c) && leb (code c) 57 then rest else none

digits : String → Option ℕ
unfolding digits_from
digits String.[] = none
digits (String.◌∷◌ c s) = digits_from 0 (String.◌∷◌ c s)

in_range : Bool → Option ℕ → Option ℤ
in_range negative none = none
in_range false (some n) = if leb (2 ^ 63) n then none else some (pos n)
in_range true (some zero) = some (pos 0)
in_range true (some (suc n)) = if leb (2 ^ 63) n then none else some (negsuc n)

-- `strconv.ParseInt(s, 10, 64)`
unfoldable pub parse_int : String → Option ℤ
unfolding digits in_range
parse_int String.[] = none
parse_int (String.◌∷◌ c s) =
    if nat_eq (code c) b'-'
    then in_range true (digits s)
    else if nat_eq (code c) b'+'
    then in_range false (digits s)
    else in_range false (digits (String.◌∷◌ c s))

abbrev pub int_eq : ℤ → ℤ → Bool
int_eq (pos a) (pos b) = nat_eq a b
int_eq (negsuc a) (negsuc b) = nat_eq a b
int_eq _ _ = false

-- The entries of the map, in the order of an iteration.
abbrev pub TgMap : Type 0
TgMap = List (ℤ × List String)

unfoldable pub filter_string_slice : List String → String → List String
filter_string_slice [] excluded = []
filter_string_slice (v ∷ s) excluded =
    let rest = filter_string_slice s excluded in if v == excluded then rest else v ∷ rest

abbrev is_empty : List String → Bool
is_empty [] = true
is_empty (x ∷ xs) = false

-- `RemoveTgToClientID`, and the first loop of `UpdateTgToClientID`
unfoldable pub remove_tg_to_client_id : String → TgMap → TgMap
unfolding filter_string_slice
remove_tg_to_client_id id [] = []
remove_tg_to_client_id id ((uid, cls) ∷ m) =
    let rest = remove_tg_to_client_id id m in
    let filtered = filter_string_slice cls id in
    if is_empty filtered then rest else (uid, filtered) ∷ rest

unfoldable pub add_tg_to_client_id : ℤ → String → TgMap → TgMap
add_tg_to_client_id userid id [] = (userid, id ∷ []) ∷ []
add_tg_to_client_id userid id ((uid, cls) ∷ m) =
    if int_eq uid userid
    then (uid, cls ++ id ∷ []) ∷ m
    else (uid, cls) ∷ add_tg_to_client_id userid id m

unfoldable pub update_tg_to_client_id : ℤ → String → TgMap → TgMap
unfolding remove_tg_to_client_id add_tg_to_client_id
update_tg_to_client_id userid id m = add_tg_to_client_id userid id (remove_tg_to_client_id id m)

-- `TgUseridToClientID[userid]`
unfoldable pub clients_of : TgMap → ℤ → List String
clients_of [] userid = []
clients_of ((uid, cls) ∷ m) userid = if int_eq uid userid then cls else clients_of m userid

unfoldable pub has_user : TgMap → ℤ → Bool
has_user [] userid = false
has_user ((uid, cls) ∷ m) userid = if int_eq uid userid then true else has_user m userid
