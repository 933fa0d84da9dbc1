-- ===== src/Net.antt =====
-- The address arithmetic of util/util.go over Go's `net.IP` and `net.IPNet`: an address is a list of
-- bytes, of length 4 or 16, a network an address with a mask of the same length.
pub mod Inc
pub mod Pool
pub mod Ranges
use Prim.Native.Nat.{bit_and, bit_or}
use wireguard_ui.Prelude.{
  ℕ, zero, suc, ◌+◌, ◌-◌, ◌%◌, String, Bool, true, false, ◌&&◌, Option, none, some, List, [], ◌∷◌,
  leb, nat_eq, length, if◌then◌else◌,
}

abbrev pub Ip : Type 0
Ip = List ℕ

pub record IpNet : Type 0 where
  pub ip : Ip
  pub mask : Ip

-- `IP.To4`: the last four bytes of a 16-byte address in `::ffff:0:0/96`, or none.
unfoldable pub to4 : Ip → Option Ip
to4 (a ∷ b ∷ c ∷ d ∷ []) = some (a ∷ b ∷ c ∷ d ∷ [])
to4 (z0 ∷ z1 ∷ z2 ∷ z3 ∷ z4 ∷ z5 ∷ z6 ∷ z7 ∷ z8 ∷ z9 ∷ f0 ∷ f1 ∷ a ∷ b ∷ c ∷ d ∷ []) =
    if nat_eq (z0 + z1 + z2 + z3 + z4 + z5 + z6 + z7 + z8 + z9) 0 && nat_eq f0 255 && nat_eq f1 255
    then some (a ∷ b ∷ c ∷ d ∷ [])
    else none
to4 _ = none

unfoldable pub shortest : Ip → Ip
unfolding to4
shortest ip = elim (to4 ip) [ none ↦ ip | some v4 ↦ v4 ]

-- `nn[i]&m[i] != ip[i]&m[i]`, for no `i`
unfoldable pub same_network : Ip → Ip → Ip → Bool
same_network (n ∷ ns) (m ∷ ms) (b ∷ bs) =
    nat_eq (bit_and n m) (bit_and b m) && same_network ns ms bs
same_network _ _ _ = true

-- `m[12:]`
last_four : Ip → Ip
last_four (a ∷ b ∷ c ∷ d ∷ e ∷ f ∷ g ∷ h ∷ i ∷ j ∷ k ∷ l ∷ m) = m
last_four m = []

-- The mask of `networkNumberAndMask`, for the network's bytes in their shortest form.
unfoldable pub mask_for : Ip → Ip → Ip
unfolding last_four
mask_for ip m = if nat_eq (length m) 16 && nat_eq (length ip) 4 then last_four m else m

-- `IPNet.Contains`
unfoldable pub contains : IpNet → Ip → Bool
unfolding shortest same_network mask_for
contains n ip =
    let net = shortest n.ip in
    nat_eq (length (shortest ip)) (length net)
    && same_network net (mask_for net n.mask) (shortest ip)

-- The number of leading one bits of a byte, and `IPMask.Size`'s first result for a mask.
ones_of : ℕ → ℕ
ones_of b =
    if nat_eq b 255
    then 8
    else if nat_eq b 254
    then 7
    else if nat_eq b 252
    then 6
    else if nat_eq b 248
    then 5
    else if nat_eq b 240
    then 4
    else if nat_eq b 224
    then 3
    else if nat_eq b 192
    then 2
    else if nat_eq b 128
    then 1
    else 0

unfoldable pub ones : Ip → ℕ
unfolding ones_of
ones [] = 0
ones (b ∷ bs) = ones_of b + ones bs

-- `ContainsCIDR`
unfoldable pub contains_cidr : IpNet → IpNet → Bool
unfolding ones contains
contains_cidr n₁ n₂ = leb (ones n₁.mask) (ones n₂.mask) && contains n₁ n₂.ip

-- `inc`, from the last byte on: the new bytes, and whether every byte so far went to 0.
unfoldable pub inc_carry : Ip → Ip × Bool
inc_carry [] = ([], true)
inc_carry (b ∷ bs) =
    let (bs', carry) = inc_carry bs in
    if carry then (((b + 1) % 256) ∷ bs', nat_eq ((b + 1) % 256) 0) else (b ∷ bs', false)

unfoldable pub inc : Ip → Ip
unfolding inc_carry
inc ip = (inc_carry ip).0

-- `n.IP[i] | ^n.Mask[i]`
unfoldable pub get_broadcast_ip : Ip → Ip → Ip
get_broadcast_ip (b ∷ bs) (m ∷ ms) = bit_or b (255 - m) ∷ get_broadcast_ip bs ms
get_broadcast_ip _ _ = []
