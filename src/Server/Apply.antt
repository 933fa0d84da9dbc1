-- ===== src/Server/Apply.antt =====
-- `applyWireGuardConfigToDisk` of handler/routes.go over the records of the database: the reads before
-- the text is rendered and the hashes that are saved after it is written.
use wireguard_ui.Prelude.{
  String, Bool, true, false, not, ◌&&◌, Option, none, some, ◌==◌, if◌then◌else◌,
}
use wireguard_ui.Text.{trim_space}
use wireguard_ui.Store.{Driver}
use wireguard_ui.Server.{
  GlobalSetting, ServerRecord, ServerDigest, Server, get_global_settings, get_server, update_hashes,
}
use wireguard_ui.Tunnel.{Faults, Programs, Env, Host}
use wireguard_ui.Tunnel.Apply.{
  Rendered, rendered, no_template, Job, apply_wire_guard_config_to_disk,
}

-- The template's text for the clients and users of the database, whether these could be read, and
-- what the system's calls come to.
pub record Disk (D : Driver ServerRecord) : Type 0 where
  pub render : Server D → GlobalSetting → Rendered
  pub others_read : Bool
  pub pending_remove_fails : Bool
  pub faults : Faults
  pub tmp : String

abbrev pub is_rendered : Rendered → Bool
is_rendered (rendered text) = true
is_rendered _ = false

module _ (D : Driver ServerRecord) (digest : ServerDigest) where
  abbrev pub text_of : Disk D → Option (Server D) → Option GlobalSetting → Rendered
  text_of disk none s = no_template
  text_of disk (some server) none = no_template
  text_of disk (some server) (some s) = disk.render server s

  abbrev pub is_some {ℓ} : {A : Type ℓ} → Option A → Bool
  is_some none = false
  is_some (some a) = true

  abbrev pub path_of : Option GlobalSetting → Option String
  path_of none = none
  path_of (some s) = some s.config_file_path

  unfoldable pub job_of : Disk D → String → D.Dir → Job
  unfolding get_global_settings get_server update_hashes
  job_of disk clients d = record {
    conf = path_of (get_global_settings D d);
    records_read = is_some (get_server D d) && disk.others_read;
    text = text_of disk (get_server D d) (get_global_settings D d);
    hashes_saved = (update_hashes D digest clients d).1;
    pending_remove_fails = disk.pending_remove_fails;
    faults = disk.faults;
    tmp = disk.tmp;
  }

  -- Whether the hashes are saved: the text has been written.
  unfoldable pub reaches_hashes : Job → Bool
  reaches_hashes job = elim job.conf [
    | none ↦ false
    | some conf ↦ job.records_read && not (trim_space conf == "") && is_rendered job.text
  ]

  module _ (w : Programs) where
    unfoldable pub apply_records :
        Env → Disk D → String → Bool → D.Dir → Host w → D.Dir × Host w × Bool
    unfolding job_of reaches_hashes apply_wire_guard_config_to_disk update_hashes
    apply_records env disk clients restart d h =
        let job = job_of disk clients d in
        let d' = if reaches_hashes job then (update_hashes D digest clients d).0 else d in
        let (h', done) = apply_wire_guard_config_to_disk w env job restart h in (d', h', done)
