-- ===== src/Examples/Texts.antt =====
-- The configuration of one client.
use wireguard_ui.Prelude.{
  String, true, false, ◌≡◌, refl, subst, Bool-cases, inl, inr, none, some, [], ◌∷◌, ◌++◌, ◌==◌,
  if◌then◌else◌, arith,
}
use wireguard_ui.Text.{has_character}
use wireguard_ui.Text.Split.{split}
use wireguard_ui.Session.Values.{pos}
use wireguard_ui.Clients.{Client}
use wireguard_ui.Clients.Config.{EndpointText, build_client_config}
use wireguard_ui.Clients.Config.Lines.{
  IsEndpointText, IsClean, config_lines, split-build_client_config,
}
use wireguard_ui.Server.{ServerInterface, ServerKeypair, GlobalSetting, no_settings}

-- A library that takes one endpoint with a port apart.
abbrev endpoint_library : EndpointText
endpoint_library = record {
  split_host_port =
      λ s. if s == "vpn.example.org:5000" then some ("vpn.example.org", "5000") else none;
  atoi = λ s. if s == "5000" then some (pos 5000) else none;
  parse_ip = λ s. none;
}

host_taken :
    (s host ps : String)
    → endpoint_library.split_host_port s ≡ some (host, ps)
    → has_character b'\n' host ≡ false
unfolding has_character
host_taken s host ps e = elim (Bool-cases (s == "vpn.example.org:5000")) [
  | inl known ↦
      let taken : "vpn.example.org" ≡ host = ground (arith, known) in
      subst (λ (h : String). has_character b'\n' h ≡ false) taken refl
  | inr other ↦ absurd (ground (arith, other))
]

endpoint_library-IsEndpointText : IsEndpointText endpoint_library
endpoint_library-IsEndpointText = record {
  host_line = λ s host ps e h. host_taken s host ps e;
  ip_line = λ s v4 text e. absurd (ground arith);
}

abbrev client : Client
client = record {
  id = "c1";
  private_key = "private";
  public_key = "public";
  preshared_key = "shared";
  name = "laptop";
  tg_userid = "";
  email = "";
  subnet_ranges = [];
  allocated_ips = "10.0.0.2/32" ∷ [];
  allowed_ips = "0.0.0.0/0" ∷ "::/0" ∷ [];
  extra_allowed_ips = [];
  endpoint = "";
  additional_notes = "";
  use_server_dns = true;
  enabled = true;
  created_at = 0;
  updated_at = 0;
}

abbrev iface : ServerInterface
iface = record {
  addresses = "10.0.0.1/30" ∷ [];
  listen_port = pos 51820;
  updated_at = 0;
  post_up = "";
  pre_down = "";
  post_down = "";
}

abbrev server_keys : ServerKeypair
server_keys = record { private_key = "secret"; public_key = "server"; updated_at = 0 }

abbrev settings : GlobalSetting
settings = record no_settings {
  endpoint_address = "vpn.example.org:5000";
  dns_servers = "1.1.1.1" ∷ "9.9.9.9" ∷ [];
  mtu = pos 1420;
}

client-IsClean : IsClean client server_keys settings
unfolding has_character
client-IsClean = record {
  addresses = (refl, tt);
  private_key = refl;
  dns = (refl, (refl, tt));
  public_key = refl;
  preshared_key = refl;
  allowed = (refl, (refl, tt));
  endpoint = refl;
}

split-build_client_config_example :
    split b'\n' (build_client_config endpoint_library client (some iface) server_keys settings)
    ≡ config_lines endpoint_library client (some iface) server_keys settings ++ "" ∷ []
split-build_client_config_example =
    split-build_client_config endpoint_library-IsEndpointText client (some iface) server_keys
      settings client-IsClean
