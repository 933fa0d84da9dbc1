-- ===== src/WakeOnLan.antt =====
-- The hosts of Wake-on-LAN: model/wake_on_lan_host.go, store/jsondb/jsondb_wake_on_lan.go and the
-- handlers of handler/routes_wake_on_lan.go that change them.
pub mod Hosts
use Prim.Native.Char.{Char, char, code}
use Prim.Native.String.{[], ◌∷◌, char_at}
use wireguard_ui.Prelude.{
  ℕ, zero, suc, ◌+◌, ◌-◌, ◌*◌, String, Bool, true, false, not, ◌&&◌, ◌||◌, Option, none, some, ◌==◌,
  leb, nat_eq, if◌then◌else◌,
}
use wireguard_ui.Session.Values.{Reply, json, failure, lit}
use wireguard_ui.Store.{Driver}

pub record Host : Type 0 where
  pub mac_address : String
  pub name : String
  pub latest_used : Option ℕ

-- The cut set of `strings.Trim`.
is_cut : ℕ → Bool
is_cut c = nat_eq c 32 || nat_eq c 9 || nat_eq c 13 || nat_eq c 10 || nat_eq c 0

cut_left : String → String
cut_left [] = []
cut_left (c ∷ s) = let rest = cut_left s in if is_cut (code c) then rest else c ∷ s

cut_right : String → String
cut_right [] = []
cut_right (c ∷ s) = let rest = cut_right s in if rest == "" && is_cut (code c) then [] else c ∷ rest

-- `strings.ToUpper` on a character and `strings.ReplaceAll` of a colon by a dash. The characters
-- beyond ASCII, whose upper case is never a hexadecimal digit, stay: `parse_mac` refuses them.
dashed : Char → Char
dashed c =
    if leb b'a' (code c) && leb (code c) b'z'
    then char_at "ABCDEFGHIJKLMNOPQRSTUVWXYZ" (code c - b'a')
    else if nat_eq (code c) b':'
    then char b'-' tt
    else c

dash_all : String → String
dash_all [] = []
dash_all (c ∷ s) = dashed c ∷ dash_all s

is_hex : ℕ → Bool
is_hex c = (leb b'0' c && leb c b'9') || (leb b'A' c && leb c b'F') || (leb b'a' c && leb c b'f')

-- The number of groups of `suc w` hexadecimal digits, with a separator between any two; `left` digits
-- are missing of the present group.
groups : ℕ → ℕ → String → ℕ → Option ℕ
groups w sep [] zero = some 1
groups w sep [] (suc left) = none
groups w sep (c ∷ s) zero =
    let rest = groups w sep s (suc w) in
    if nat_eq (code c) sep then elim rest [ none ↦ none | some n ↦ some (suc n) ] else none
groups w sep (c ∷ s) (suc left) =
    let rest = groups w sep s left in if is_hex (code c) then rest else none

is_octets : Option ℕ → ℕ → Bool
is_octets none k = false
is_octets (some n) k = nat_eq (n * k) 6 || nat_eq (n * k) 8 || nat_eq (n * k) 20

-- `net.ParseMAC` of a text without colons: groups of two digits with dashes, or of four with dots.
parse_mac : String → Bool
parse_mac s = is_octets (groups 1 b'-' s 2) 1 || is_octets (groups 3 b'.' s 4) 2

-- `ResolveResourceName`, of the MAC address of a host.
unfoldable pub resolve_resource_name : String → Option String
unfolding is_cut cut_left cut_right dashed dash_all is_hex groups is_octets parse_mac
resolve_resource_name mac =
    let name = dash_all (cut_right (cut_left mac)) in
    if name == "" then none else if parse_mac name then some name else none

-- The handlers' answers: the host, its time, JSON's null, the payload, or a nil dereference.
pub data WolReply : Type 0 where
  answers : Reply → WolReply
  host : Host → WolReply
  used : Option ℕ → WolReply
  null payload panics : WolReply

-- The payload of `SaveWakeOnLanHost`.
pub record HostBody : Type 0 where
  pub name : String
  pub mac_address : String
  pub old_mac_address : String

-- `createError`, with the text of an error.
abbrev pub failed : WolReply
failed = WolReply.answers (json 500 false failure)

abbrev pub exists_already : WolReply
exists_already = answers (json 500 false (lit "Mac Address already exists."))

module _ (D : Driver Host) where
  unfoldable pub get_wake_on_lan_host : D.Dir → String → Option Host
  get_wake_on_lan_host d mac = elim (resolve_resource_name mac) [
    | none ↦ none
    | some resource ↦ D.read d resource
  ]

  unfoldable pub delete_wake_on_host_lan_host : D.Dir → String → D.Dir × Bool
  delete_wake_on_host_lan_host d mac = elim (resolve_resource_name mac) [
    | none ↦ (d, false)
    | some resource ↦ D.delete d resource
  ]

  unfoldable pub save_wake_on_lan_host : D.Dir → Host → D.Dir × Bool
  save_wake_on_lan_host d h = elim (resolve_resource_name h.mac_address) [
    | none ↦ (d, false)
    | some resource ↦
        let (d', written) = D.write d resource h in
        (d', if D.chmod d' resource then written else false)
  ]

  abbrev pub Saved : Type 0
  Saved = D.Dir × WolReply

  -- The last steps of `SaveWakeOnLanHost`.
  unfoldable pub store_host : D.Dir → Host → Saved
  unfolding save_wake_on_lan_host
  store_host d h =
      let (d', saved) = save_wake_on_lan_host d h in if saved then (d', host h) else (d', failed)

  -- An edit with another MAC address.
  unfoldable pub move_host : D.Dir → HostBody → Saved
  unfolding get_wake_on_lan_host delete_wake_on_host_lan_host store_host
  move_host d b = elim (get_wake_on_lan_host d b.old_mac_address) [
    | none ↦ (d, failed)
    | some old ↦ elim (get_wake_on_lan_host d b.mac_address) [
      | some _ ↦ (d, exists_already)
      | none ↦
          let (d', deleted) = delete_wake_on_host_lan_host d b.old_mac_address in
          if not deleted
          then (d', failed)
          else store_host d'
              (record { mac_address = b.mac_address; name = b.name; latest_used = old.latest_used })
    ]
  ]

  unfoldable pub post_host : D.Dir → Option HostBody → Saved
  unfolding get_wake_on_lan_host store_host move_host
  post_host d none = (d, payload)
  post_host d (some b) =
      let new : Host = record { mac_address = b.mac_address; name = b.name; latest_used = none } in
      if not (b.old_mac_address == "")
      then (if not (b.old_mac_address == b.mac_address) then move_host d b else store_host d new)
      else elim (get_wake_on_lan_host d b.mac_address) [
        | some _ ↦ (d, exists_already)
        | none ↦ store_host d new
      ]

  -- `DeleteWakeOnHost` of the handlers, which calls that of the store.
  unfoldable pub delete_wake_on_host : D.Dir → String → Saved
  unfolding get_wake_on_lan_host delete_wake_on_host_lan_host
  delete_wake_on_host d mac = elim (get_wake_on_lan_host d mac) [
    | none ↦ (d, failed)
    | some h ↦
        let (d', deleted) = delete_wake_on_host_lan_host d h.mac_address in
        if deleted then (d', null) else (d', failed)
  ]

  -- `sent` is what becomes of the packet: the answer where it could not be sent.
  unfoldable pub wake_on_host : D.Dir → String → ℕ → Option Reply → Saved
  unfolding get_wake_on_lan_host save_wake_on_lan_host
  wake_on_host d mac now sent = elim (get_wake_on_lan_host d mac) [
    | none ↦ (d, panics)
    | some h ↦
        let (d', saved) = save_wake_on_lan_host d (record h { latest_used = some now }) in
        if not saved
        then (d', failed)
        else elim sent [ some r ↦ (d', answers r) | none ↦ (d', used (some now)) ]
  ]
