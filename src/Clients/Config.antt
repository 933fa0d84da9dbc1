-- ===== src/Clients/Config.antt =====
-- The configuration of a client: `BuildClientConfig`, `ParseWireGuardEndpointListen` and
-- `FormatWireGuardEndpointLine` of util/util.go.
pub mod Text
pub mod Entries
pub mod Lines
use Prim.Native.String.{◌++◌}
use wireguard_ui.Prelude.{
  ℕ, zero, suc, ◌/◌, ◌%◌, String, Bool, true, false, not, ◌&&◌, ◌||◌, Option, none, some, List, [],
  ◌∷◌, ◌==◌, nat_eq, ltb, leb, if◌then◌else◌,
}
use wireguard_ui.Text.{trim_space}
use wireguard_ui.Text.Split.{join}
use wireguard_ui.Session.Values.{ℤ, pos, negsuc}
use wireguard_ui.Clients.{Client}
use wireguard_ui.Server.{ServerInterface, ServerKeypair, GlobalSetting}

-- `net.SplitHostPort`, `strconv.Atoi`, and `net.ParseIP` with whether the address has an IPv4 form and
-- its text; `none` is an error.
pub record EndpointText : Type 0 where
  pub split_host_port : String → Option (String × String)
  pub atoi : String → Option ℤ
  pub parse_ip : String → Option (Bool × String)

digit_in : List String → ℕ → String
digit_in [] n = ""
digit_in (d ∷ ds) zero = d
digit_in (d ∷ ds) (suc n) = digit_in ds n

abbrev digits : List String
digits = "0" ∷ "1" ∷ "2" ∷ "3" ∷ "4" ∷ "5" ∷ "6" ∷ "7" ∷ "8" ∷ "9" ∷ []

-- `%d`, on fuel beyond the number of digits.
unfoldable pub decimal_from : ℕ → ℕ → String
unfolding digit_in
decimal_from zero n = ""
decimal_from (suc fuel) n =
    let rest = decimal_from fuel (n / 10) ++ digit_in digits (n % 10) in
    if ltb n 10 then digit_in digits n else rest

unfoldable pub decimal : ℕ → String
unfolding decimal_from
decimal n = decimal_from (suc n) n

abbrev pub is_endpoint_port : ℤ → Bool
is_endpoint_port (pos n) = leb 1 n && leb n 65535
is_endpoint_port (negsuc n) = false

abbrev pub port_or_default : ℤ → ℕ
port_or_default (pos n) = if leb 1 n && leb n 65535 then n else 51820
port_or_default (negsuc n) = 51820

abbrev pub has_dns : Client → GlobalSetting → Bool
has_dns c s = elim s.dns_servers [ [] ↦ false | _ ∷ _ ↦ c.use_server_dns || s.global_dns_override ]

-- `fmt.Sprintf(key + " = %s\n", value)`
abbrev pub line : String → String → String
line key value = key ++ (" = " ++ (value ++ "\n"))

abbrev pub number_line : String → ℤ → String
number_line key (pos zero) = ""
number_line key (pos (suc n)) = line key (decimal (suc n))
number_line key (negsuc n) = ""

module _ (t : EndpointText) where
  -- The port of the text, if it is one.
  unfoldable pub port_of : String → Option ℕ
  port_of ps = elim (t.atoi (trim_space ps)) [
    | none ↦ none
    | some (pos p) ↦ if leb 1 p && leb p 65535 then some p else none
    | some (negsuc p) ↦ none
  ]

  -- The port is always positive here: the callers give a default that is one.
  unfoldable pub parse_wire_guard_endpoint_listen : String → ℕ → String × ℕ
  unfolding port_of
  parse_wire_guard_endpoint_listen sent listen =
      let addr = trim_space sent in
      let default : ℕ = port_or_default (pos listen) in
      if addr == "" then ("", listen) else elim (t.split_host_port addr) [
        | none ↦ (addr, default)
        | some (host, ps) ↦
            if trim_space host == ""
            then (addr, default)
            else elim (port_of ps) [ none ↦ (addr, default) | some p ↦ (trim_space host, p) ]
      ]

  -- `FormatWireGuardEndpointLine`
  unfoldable pub format_wire_guard_endpoint_line : String → ℕ → String
  unfolding decimal
  format_wire_guard_endpoint_line host port =
      let h = trim_space host in
      if h == "" || not (leb 1 port && leb port 65535) then "" else elim (t.parse_ip h) [
        | some (true, text) ↦ "Endpoint = " ++ (text ++ (":" ++ (decimal port ++ "\n")))
        | some (false, text) ↦ "Endpoint = [" ++ (text ++ ("]:" ++ (decimal port ++ "\n")))
        | none ↦ "Endpoint = " ++ (h ++ (":" ++ (decimal port ++ "\n")))
      ]

  unfoldable pub build_client_config :
      Client → Option ServerInterface → ServerKeypair → GlobalSetting → String
  unfolding parse_wire_guard_endpoint_listen format_wire_guard_endpoint_line join decimal
  build_client_config c iface k s =
      let listen : ℕ = elim iface [ none ↦ 51820 | some i ↦ port_or_default i.listen_port ] in
      let (host, port) = parse_wire_guard_endpoint_listen s.endpoint_address listen in
      "[Interface]\n"
      ++ (line "Address" (join "," c.allocated_ips)
          ++ (line "PrivateKey" c.private_key
              ++ ((if has_dns c s then line "DNS" (join "," s.dns_servers) else "")
                  ++ (number_line "MTU" s.mtu
                      ++ ("\n[Peer]\n"
                          ++ (line "PublicKey" k.public_key
                              ++ ((if c.preshared_key == ""
                                    then ""
                                    else line "PresharedKey" c.preshared_key)
                                  ++ (line "AllowedIPs" (join "," c.allowed_ips)
                                      ++ (format_wire_guard_endpoint_line host port
                                          ++ number_line "PersistentKeepalive"
                                              s.persistent_keepalive)))))))))
