-- ===== src/Clients/Config/Lines.antt =====
-- The lines of a client's configuration.
use text.Mathlib.TextLemmas.{append-nil}
use wireguard_ui.Prelude.{
  ℕ, String, Bool, true, false, not, ◌&&◌, ◌||◌, ◌≡◌, refl, sym, ap, ◌∙◌, Option, none, some, List,
  [], ◌∷◌, ◌++◌, ◌==◌, leb, All, inl, inr, Bool-cases, Option-cases, if◌then◌else◌, arith,
}
use wireguard_ui.Text.{has_character, trim_space}
use wireguard_ui.Text.Trim.{has_character-trim_space}
use wireguard_ui.Text.Split.{split, join}
use wireguard_ui.Clients.Config.{
  EndpointText, decimal, has_dns, port_or_default, port_of, parse_wire_guard_endpoint_listen,
  format_wire_guard_endpoint_line, build_client_config,
}
use wireguard_ui.Clients.{Client}
use wireguard_ui.Server.{ServerInterface, ServerKeypair, GlobalSetting}
use wireguard_ui.Clients.Config.Text.{
  ◌<>◌, IsOneLine, IsLines, empty-IsLines, append-IsLines, key_line, IsOneLine-join,
}
use wireguard_ui.Clients.Config.Entries.{
  entry, number_entry, number_line-IsLines, either-IsLines, blank, interface_head, peer_head,
  preshared, four,
}

-- The library gives texts with no line break for a text that has none.
pub record IsEndpointText (t : EndpointText) : Type 0 where
  pub host_line :
      (s host ps : String) → t.split_host_port s ≡ some (host, ps) → IsOneLine s → IsOneLine host
  pub ip_line :
      (s : String) (v4 : Bool) (text : String) → t.parse_ip s ≡ some (v4, text) → IsOneLine text

-- The texts of the records have no line break.
pub record IsClean (c : Client) (k : ServerKeypair) (s : GlobalSetting) : Type 0 where
  pub addresses : All IsOneLine c.allocated_ips
  pub private_key : IsOneLine c.private_key
  pub dns : All IsOneLine s.dns_servers
  pub public_key : IsOneLine k.public_key
  pub preshared_key : IsOneLine c.preshared_key
  pub allowed : All IsOneLine c.allowed_ips
  pub endpoint : IsOneLine s.endpoint_address

module _ (t : EndpointText) where
  -- The text of an endpoint: an address, in brackets for IPv6, or the host.
  abbrev endpoint_text : Option (Bool × String) → String → ℕ → String
  endpoint_text none h port = "Endpoint = " <> h <> ":" <> decimal port
  endpoint_text (some (true, text)) h port = "Endpoint = " <> text <> ":" <> decimal port
  endpoint_text (some (false, text)) h port = "Endpoint = [" <> text <> "]:" <> decimal port

  -- The line of the endpoint, where there is a host and a port.
  abbrev endpoint_entry : String → ℕ → List String
  endpoint_entry host port =
      if trim_space host == "" || not (leb 1 port && leb port 65535)
      then []
      else endpoint_text (t.parse_ip (trim_space host)) (trim_space host) port ∷ []

  -- The lines of the two sections, and the empty text after the last break.
  abbrev pub config_lines :
      Client → Option ServerInterface → ServerKeypair → GlobalSetting → List String
  config_lines c iface k s =
      let listen : ℕ = elim iface [ none ↦ 51820 | some i ↦ port_or_default i.listen_port ] in
      let (host, port) = parse_wire_guard_endpoint_listen t s.endpoint_address listen in
      ("[Interface]" ∷ [])
      ++ (entry "Address" (join "," c.allocated_ips)
          ++ (entry "PrivateKey" c.private_key
              ++ ((if has_dns c s then entry "DNS" (join "," s.dns_servers) else [])
                  ++ (number_entry "MTU" s.mtu
                      ++ (("" ∷ "[Peer]" ∷ [])
                          ++ (entry "PublicKey" k.public_key
                              ++ ((if c.preshared_key == ""
                                    then []
                                    else entry "PresharedKey" c.preshared_key)
                                  ++ (entry "AllowedIPs" (join "," c.allowed_ips)
                                      ++ (endpoint_entry host port
                                          ++ number_entry "PersistentKeepalive"
                                              s.persistent_keepalive)))))))))

module _ {t : EndpointText} (laws : IsEndpointText t) where
  host_of-IsOneLine :
      (sent : String) (listen : ℕ)
      → IsOneLine sent
      → IsOneLine (parse_wire_guard_endpoint_listen t sent listen).0
  unfolding parse_wire_guard_endpoint_listen
  host_of-IsOneLine sent listen h =
      let addr = has_character-trim_space b'\n' sent h in
      elim (Option-cases (t.split_host_port (trim_space sent))) [
        | inl e ↦ ground (arith, e, addr, blank)
        | inr ((host, ps), e) ↦
            let inner = laws.host_line (trim_space sent) host ps e addr in
            let trimmed = has_character-trim_space b'\n' host inner in
            elim (Option-cases (port_of t ps)) [
              | inl f ↦ ground (arith, e, f, addr, blank)
              | inr (p, f) ↦ ground (arith, e, f, addr, trimmed, blank)
            ]
      ]

  endpoint-IsOneLine :
      (r : Option (Bool × String)) (h : String) (port : ℕ)
      → t.parse_ip h ≡ r
      → IsOneLine h
      → IsLines
          (elim r as (λ _. String) [
            | some (true, text) ↦ "Endpoint = " <> text <> ":" <> decimal port <> "\n"
            | some (false, text) ↦ "Endpoint = [" <> text <> "]:" <> decimal port <> "\n"
            | none ↦ "Endpoint = " <> h <> ":" <> decimal port <> "\n"
          ])
          (endpoint_text t r h port ∷ [])
  unfolding has_character
  endpoint-IsOneLine none h port e g = four "Endpoint = " h ":" port refl g refl
  endpoint-IsOneLine (some (true, text)) h port e g =
      four "Endpoint = " text ":" port refl (laws.ip_line h true text e) refl
  endpoint-IsOneLine (some (false, text)) h port e g =
      four "Endpoint = [" text "]:" port refl (laws.ip_line h false text e) refl

  format-IsLines :
      (host : String) (port : ℕ)
      → IsOneLine host
      → IsLines (format_wire_guard_endpoint_line t host port) (endpoint_entry t host port)
  unfolding format_wire_guard_endpoint_line
  format-IsLines host port h =
      elim (Bool-cases (trim_space host == "" || not (leb 1 port && leb port 65535))) [
        | inl none_given ↦ rw none_given empty-IsLines
        | inr given ↦ rw given (
            endpoint-IsOneLine (t.parse_ip (trim_space host)) (trim_space host) port refl
              (has_character-trim_space b'\n' host h))
      ]

  build_client_config-IsLines :
      (c : Client) (iface : Option ServerInterface) (k : ServerKeypair) (s : GlobalSetting)
      → IsClean c k s
      → IsLines (build_client_config t c iface k s) (config_lines t c iface k s)
  unfolding has_character build_client_config
  build_client_config-IsLines c iface k s h =
      let listen : ℕ = elim iface [ none ↦ 51820 | some i ↦ port_or_default i.listen_port ] in
      let at = parse_wire_guard_endpoint_listen t s.endpoint_address listen in
      let host = host_of-IsOneLine s.endpoint_address listen h.endpoint in
      append-IsLines _ _ _ _ interface_head (
        append-IsLines _ _ _ _
          (key_line "Address" _ refl (IsOneLine-join c.allocated_ips h.addresses))
          (append-IsLines _ _ _ _ (key_line "PrivateKey" _ refl h.private_key) (
            append-IsLines _ _ _ _
              (either-IsLines (has_dns c s) "DNS" _ refl (λ _. IsOneLine-join s.dns_servers h.dns))
              (append-IsLines _ _ _ _ (number_line-IsLines "MTU" s.mtu refl) (
                append-IsLines _ _ _ _ peer_head (
                  append-IsLines _ _ _ _ (key_line "PublicKey" _ refl h.public_key) (
                    append-IsLines _ _ _ _ (preshared c.preshared_key h.preshared_key) (
                      append-IsLines _ _ _ _
                        (key_line "AllowedIPs" _ refl (IsOneLine-join c.allowed_ips h.allowed))
                        (append-IsLines _ _ _ _ (format-IsLines at.0 at.1 host) (
                          number_line-IsLines "PersistentKeepalive" s.persistent_keepalive
                            refl))))))))))

  -- Let the library give texts with no line break for such texts. For records whose texts have no line
  -- break, the lines of a client's configuration are exactly the headings, one line for each key and
  -- value, those of the DNS servers, the MTU, the preshared key, the endpoint and the keepalive only
  -- where they are set, and an empty line before the second heading; a last line ends with a break.
  pub split-build_client_config :
      (c : Client) (iface : Option ServerInterface) (k : ServerKeypair) (s : GlobalSetting)
      → IsClean c k s
      → split b'\n' (build_client_config t c iface k s) ≡ config_lines t c iface k s ++ "" ∷ []
  unfolding IsLines split
  split-build_client_config c iface k s h =
      ap (split b'\n') (sym (append-nil (build_client_config t c iface k s)))
      ∙ build_client_config-IsLines c iface k s h ""
