-- ===== src/Server/Sound/Requests.antt =====
-- The requests on the server's records, one by one: each keeps them sound.
use wireguard_ui.Prelude.{
  ℕ, String, Bool, true, false, not, ◌≡◌, refl, inl, inr, Option, none, some, if_split,
  Option-cases, if◌then◌else◌, arith,
}
use wireguard_ui.Store.{Driver, IsDriver}
use wireguard_ui.Session.Values.{Reply, json, lit}
use wireguard_ui.Net.Pool.{NetText, validate_cidr_list}
use wireguard_ui.Server.{
  ServerInterface, GlobalSetting, ServerRecord, ServerDigest, keypair, as_settings,
  get_global_settings,
}
use wireguard_ui.Server.Settings.{validate_mtu, validate_ip_address_list}
use wireguard_ui.Server.Apply.{Disk, apply_records, reaches_hashes, job_of}
use wireguard_ui.Server.Handlers.{
  ServerPayload, SaveReply, answers, KeyReply, settings_of, interface_of,
  wire_guard_server_interfaces, wire_guard_server_key_pair, save_settings, wire_guard_server_save,
}
use wireguard_ui.Server.Sound.{
  IsSound, IsSoundSettings, save_global_settings-IsSound, save_server_interface-IsSound,
  save_other-IsSound, update_hashes-IsSound,
}
use wireguard_ui.Tunnel.{Programs, Env, Host}

module _ {D : Driver ServerRecord} (laws : IsDriver D) (digest : ServerDigest) (t : NetText)
    {Ip : Type 0} (parse_ip : String → Option Ip) where
  pub wire_guard_server_interfaces-IsSound :
      (now : ℕ) (i : ServerInterface) (d : D.Dir)
      → IsSound D t parse_ip d
      → IsSound D t parse_ip (wire_guard_server_interfaces D digest t parse_ip now i d).0
  unfolding wire_guard_server_interfaces
  wire_guard_server_interfaces-IsSound now i d h =
      if_split (λ (o : D.Dir × Reply). IsSound D t parse_ip o.0)
        (not (validate_cidr_list t i.addresses false)) (λ _. h)
        (λ valid.
          let saved =
            save_server_interface-IsSound D t parse_ip laws (record i { updated_at = now }) d
              (ground arith) h in
          if_split (λ (o : D.Dir × Reply). IsSound D t parse_ip o.0) _ (λ _. saved) (λ _. saved))

  pub wire_guard_server_key_pair-IsSound :
      (now : ℕ) (key : Option (String × String)) (d : D.Dir)
      → IsSound D t parse_ip d
      → IsSound D t parse_ip (wire_guard_server_key_pair D digest t parse_ip now key d).0
  unfolding wire_guard_server_key_pair
  wire_guard_server_key_pair-IsSound now none d h = h
  wire_guard_server_key_pair-IsSound now (some (private_key, public_key)) d h =
      let saved = save_other-IsSound D t parse_ip laws "keypair" (keypair _) d refl refl h in
      if_split (λ (o : D.Dir × KeyReply). IsSound D t parse_ip o.0) _ (λ _. saved) (λ _. saved)

  module _ (w : Programs) (env : Env) (disk : Disk D) (clients : String) where
    pub apply_records-IsSound :
        (restart : Bool) (d : D.Dir) (h : Host w)
        → IsSound D t parse_ip d
        → IsSound D t parse_ip (apply_records D digest w env disk clients restart d h).0
    unfolding apply_records
    apply_records-IsSound restart d h g =
        if_split (IsSound D t parse_ip) (reaches_hashes D digest (job_of D digest disk clients d))
          (λ _. update_hashes-IsSound D t parse_ip laws digest clients d g) (λ _. g)

    save_settings-IsSound :
        (sysctl : Bool) (s : GlobalSetting) (d : D.Dir) (h : Host w)
        → IsSoundSettings parse_ip s
        → IsSound D t parse_ip d
        → IsSound D t parse_ip (save_settings D digest t parse_ip w env disk clients sysctl s d h).0
    unfolding save_settings
    save_settings-IsSound sysctl s d h g sound =
        let saved = save_global_settings-IsSound D t parse_ip laws s d g sound in
        ground (arith, saved, apply_records-IsSound false _ h saved)

    sound_payload :
        (b : ServerPayload) (now : ℕ) (s : GlobalSetting)
        → IsSoundSettings parse_ip s
        → validate_mtu b.mtu ≡ true
        → validate_ip_address_list parse_ip (settings_of b now s).dns_servers ≡ true
        → IsSoundSettings parse_ip (settings_of b now s)
    sound_payload b now s g mtu dns = record {
      dns_parse = dns;
      mtu_fits = mtu;
      themed = g.themed;
      timed = g.timed;
      placed = g.placed;
    }

    store_payload :
        (sysctl : Bool) (b : ServerPayload) (now : ℕ) (d : D.Dir) (h : Host w)
        → validate_mtu b.mtu ≡ true
        → IsSound D t parse_ip d
        → IsSound D t parse_ip
            (elim (get_global_settings D d) as (λ _. D.Dir × Host w × SaveReply) [
              | none ↦ (d, h, answers (json 500 false (lit "Cannot read global settings")))
              | some gs ↦
                  if not (validate_ip_address_list parse_ip (settings_of b now gs).dns_servers)
                  then (d, h, answers (json 400 false (lit "Invalid DNS server address")))
                  else save_settings D digest t parse_ip w env disk clients sysctl
                      (settings_of b now gs)
                      d
                      h
            ]).0
    unfolding get_global_settings
    store_payload sysctl b now d h mtu sound =
        elim (Option-cases (as_settings (D.read d "global_settings"))) [
          | inl e ↦ rw e sound
          | inr (gs, e) ↦
              let g : IsSoundSettings parse_ip gs = rw e at sound.settings in
              rw e (
                ground (
                  arith,
                  sound,
                  λ (dns : validate_ip_address_list parse_ip (settings_of b now gs).dns_servers
                        ≡ true).
                      save_settings-IsSound sysctl _ d h (sound_payload b now gs g mtu dns) sound,
                ))
        ]

    pub wire_guard_server_save-IsSound :
        (sysctl : Bool) (now : ℕ) (b : Option ServerPayload) (d : D.Dir) (h : Host w)
        → IsSound D t parse_ip d
        → IsSound D t parse_ip
            (wire_guard_server_save D digest t parse_ip w env disk clients sysctl now b d h).0
    unfolding wire_guard_server_save
    wire_guard_server_save-IsSound sysctl now none d h sound = sound
    wire_guard_server_save-IsSound sysctl now (some b) d h sound = ground (
      arith,
      sound,
      λ (valid : validate_cidr_list t b.addresses false ≡ true).
          save_server_interface-IsSound D t parse_ip laws (interface_of b now) d valid sound,
      λ (valid : validate_cidr_list t b.addresses false ≡ true) (mtu : validate_mtu b.mtu ≡ true).
          store_payload sysctl b now _ h mtu
            (save_server_interface-IsSound D t parse_ip laws (interface_of b now) d valid sound),
    )
