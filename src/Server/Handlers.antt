-- ===== src/Server/Handlers.antt =====
-- `WireGuardServerInterfaces`, `WireGuardServerKeyPair` and `WireGuardServerSave` of
-- handler/routes.go.
use wireguard_ui.Prelude.{
  ℕ, String, Bool, true, false, not, ◌&&◌, ◌||◌, Option, none, some, List, [], ◌∷◌, ◌==◌, leb,
  if◌then◌else◌,
}
use wireguard_ui.Text.{trim_space}
use wireguard_ui.Text.Split.{split}
use wireguard_ui.Store.{Driver}
use wireguard_ui.Session.Values.{ℤ, pos, negsuc, Reply, json, lit, failure}
use wireguard_ui.Net.Pool.{NetText, validate_cidr_list}
use wireguard_ui.Server.{
  ServerInterface, ServerKeypair, GlobalSetting, ServerRecord, ServerDigest, get_global_settings,
  save_server_interface, save_server_key_pair, save_global_settings, hashes_changed,
}
use wireguard_ui.Server.Settings.{validate_mtu, validate_ip_address_list}
use wireguard_ui.Server.Apply.{Disk, apply_records}
use wireguard_ui.Tunnel.{Programs, Env, Host}

-- `wgServerPagePayload`
pub record ServerPayload : Type 0 where
  pub addresses : List String
  pub listen_port : ℤ
  pub post_up : String
  pub pre_down : String
  pub post_down : String
  pub mtu : ℤ
  pub dns_servers_raw : String
  pub ip_forward_desired : Bool
  pub global_dns_override : Bool
  pub persist_wg_conf_on_save : Bool
  pub auto_apply_wg_on_save : Bool

abbrev pub is_port : ℤ → Bool
is_port (pos n) = leb 1 n && leb n 65535
is_port (negsuc n) = false

unfoldable pub dns_of : List String → List String
dns_of [] = []
dns_of (p ∷ ps) = let rest = dns_of ps in if trim_space p == "" then rest else trim_space p ∷ rest

-- The answer, or the one of a save with whether the configuration is to be applied.
pub data SaveReply : Type 0 where
  answers : Reply → SaveReply
  saved : Bool → SaveReply

pub data KeyReply : Type 0 where
  refuses : Reply → KeyReply
  shows : ServerKeypair → KeyReply

abbrev pub interface_of : ServerPayload → ℕ → ServerInterface
interface_of b now = record {
  addresses = b.addresses;
  listen_port = b.listen_port;
  updated_at = now;
  post_up = b.post_up;
  pre_down = b.pre_down;
  post_down = b.post_down;
}

abbrev pub settings_of : ServerPayload → ℕ → GlobalSetting → GlobalSetting
settings_of b now gs = record gs {
  mtu = b.mtu;
  dns_servers = dns_of (split b',' b.dns_servers_raw);
  ip_forward_desired = b.ip_forward_desired;
  global_dns_override = b.global_dns_override;
  persist_wg_conf_on_save = b.persist_wg_conf_on_save;
  auto_apply_wg_on_save = b.auto_apply_wg_on_save;
  updated_at = now;
}

module _ (D : Driver ServerRecord) (digest : ServerDigest) (t : NetText) {Ip : Type 0}
    (parse_ip : String → Option Ip) where
  -- The body is what `c.Bind` fills in, of which the error is ignored.
  unfoldable pub wire_guard_server_interfaces : ℕ → ServerInterface → D.Dir → D.Dir × Reply
  unfolding validate_cidr_list
  wire_guard_server_interfaces now i d =
      if not (validate_cidr_list t i.addresses false)
      then (d, json 400 false (lit "Interface IP address must be in CIDR format"))
      else (let (d', done) = save_server_interface D (record i { updated_at = now }) d in
          if done
          then (d', json 200 true (lit "Updated interface addresses successfully"))
          else (d', json 500 false (lit "Interface IP address must be in CIDR format")))

  -- `key` is the new private key with its public key, or `none` where none can be generated.
  unfoldable pub wire_guard_server_key_pair :
      ℕ → Option (String × String) → D.Dir → D.Dir × KeyReply
  wire_guard_server_key_pair now none d =
      (d, refuses (json 500 false (lit "Cannot generate Wireguard key pair")))
  wire_guard_server_key_pair now (some (private_key, public_key)) d =
      let pair : ServerKeypair = record {
        private_key = private_key;
        public_key = public_key;
        updated_at = now;
      } in
      let (d', done) = save_server_key_pair D pair d in
      if done
      then (d', shows pair)
      else (d', refuses (json 500 false (lit "Cannot generate Wireguard key pair")))

  module _ (w : Programs) where
    -- From the write of the settings on; `sysctl` tells whether `ApplyIPv4ForwardSysctl` succeeds.
    unfoldable pub save_settings :
        Env → Disk D → String → Bool → GlobalSetting → D.Dir → Host w → D.Dir × Host w × SaveReply
    unfolding apply_records hashes_changed
    save_settings env disk clients sysctl gs d h =
        let (d₁, done) = save_global_settings D gs d in
        if not done
        then (d₁, h, answers (json 500 false (lit "Cannot save settings")))
        else if not sysctl
        then (d₁, h, answers (json 500 false failure))
        else if gs.persist_wg_conf_on_save || gs.auto_apply_wg_on_save
        then (let (d₂, h₂, applied) = apply_records D digest w env disk clients false d₁ h in
            if applied
            then (d₂, h₂, saved (hashes_changed D digest clients d₂))
            else (d₂, h₂, answers (json 500 false failure)))
        else (d₁, h, saved (hashes_changed D digest clients d₁))

    -- `WireGuardServerSave`; `none` is a body that does not bind.
    unfoldable pub wire_guard_server_save :
        Env
        → Disk D
        → String
        → Bool
        → ℕ
        → Option ServerPayload
        → D.Dir
        → Host w
        → D.Dir × Host w × SaveReply
    unfolding get_global_settings validate_mtu validate_ip_address_list validate_cidr_list
        save_settings dns_of
    wire_guard_server_save env disk clients sysctl now none d h =
        (d, h, answers (json 400 false failure))
    wire_guard_server_save env disk clients sysctl now (some b) d h =
        if not (is_port b.listen_port)
        then (d, h, answers (json 400 false (lit "Listen port must be in range 1..65535")))
        else if not (validate_cidr_list t b.addresses false)
        then (d, h, answers (json 400 false (lit "Interface IP address must be in CIDR format")))
        else if not (validate_mtu b.mtu)
        then (d, h, answers (json 400 false (lit "MTU must be 1280..9000 or 0/empty to omit")))
        else (let (d₁, done) = save_server_interface D (interface_of b now) d in
            if not done
            then (d₁, h, answers (json 500 false (lit "Cannot save server interface")))
            else elim (get_global_settings D d₁) [
              | none ↦ (d₁, h, answers (json 500 false (lit "Cannot read global settings")))
              | some gs ↦
                  let gs' = settings_of b now gs in
                  if not (validate_ip_address_list parse_ip gs'.dns_servers)
                  then (d₁, h, answers (json 400 false (lit "Invalid DNS server address")))
                  else save_settings env disk clients sysctl gs' d₁ h
            ])
