-- ===== src/Tunnel/Apply.antt =====
-- `applyWireGuardConfigToDisk` and `ApplyServerConfig` of handler/routes.go.
pub mod Started
pub mod Runs
use wireguard_ui.Prelude.{
  ℕ, String, Bool, true, false, not, ◌&&◌, ◌||◌, Option, none, some, ◌==◌, if◌then◌else◌,
}
use wireguard_ui.Text.{trim_space}
use wireguard_ui.Session.Values.{Reply, json, lit, failure}
use wireguard_ui.Tunnel.{
  Files, write, is_abs, wg_conf_pending_path, remove_wg_conf_pending, Faults, Programs, Env, Host,
  restart_wg_quick, wg_sync_conf_from_saved_file, wg_force_sync_conf_from_saved_file,
  wg_tunnel_is_running,
}

-- What `WriteWireGuardServerConfig` makes of the records: the text, or an error before the file is
-- created, or one that leaves part of a text in it.
pub data Rendered : Type 0 where
  rendered : String → Rendered
  no_template : Rendered
  broken_off : Option String → Rendered

-- One request: the settings' path or `none` where they cannot be read, whether the other records can
-- be read, the rendering, whether the hashes can be saved, and the faults of the file system.
pub record Job : Type 0 where
  pub conf : Option String
  pub records_read : Bool
  pub text : Rendered
  pub hashes_saved : Bool
  pub pending_remove_fails : Bool
  pub faults : Faults
  pub tmp : String

module _ (w : Programs) where
  -- The file that `WriteWireGuardServerConfig` creates.
  unfoldable pub write_wire_guard_server_config : Rendered → Files → String → Files × Bool
  write_wire_guard_server_config (rendered text) fs path = (write fs path (some text), true)
  write_wire_guard_server_config no_template fs path = (fs, false)
  write_wire_guard_server_config (broken_off none) fs path = (fs, false)
  write_wire_guard_server_config (broken_off (some part)) fs path =
      (write fs path (some part), false)

  -- Whether the text goes to the pending file.
  unfoldable pub is_pending : Env → Host w → Bool → String → Bool
  unfolding wg_tunnel_is_running
  is_pending env h restart canonical =
      not restart
      && env.pending_when_stopped
      && env.linux
      && not (canonical == "")
      && is_abs canonical
      && not (wg_tunnel_is_running w h canonical)

  unfoldable pub out_path : Env → Host w → Bool → String → String
  unfolding is_pending
  out_path env h restart canonical =
      if is_pending env h restart canonical then wg_conf_pending_path canonical else canonical

  -- The files before the text is written.
  unfoldable pub clear_pending : Env → Bool → Host w → Bool → String → Files
  unfolding is_pending remove_wg_conf_pending
  clear_pending env fails h restart canonical =
      if is_pending env h restart canonical
      then h.files
      else if restart || not (canonical == "")
      then remove_wg_conf_pending fails h.files canonical
      else h.files

  -- `applyKernelAfterWritingWgConf`
  unfoldable pub apply_kernel_after_writing_wg_conf :
      Env → Faults → String → Host w → String → Bool → Host w × Bool
  unfolding restart_wg_quick wg_sync_conf_from_saved_file wg_force_sync_conf_from_saved_file
      wg_tunnel_is_running
  apply_kernel_after_writing_wg_conf env f tmp h conf restart =
      if restart
      then (let (h', done) = restart_wg_quick w env f tmp h conf in
          if done then (h', true) else wg_force_sync_conf_from_saved_file w env f h' conf)
      else if env.syncs_after_write && not (wg_tunnel_is_running w h conf)
      then (h, true)
      else wg_sync_conf_from_saved_file w env f h conf

  -- With an empty path `WriteWireGuardServerConfig` creates no file: the settings' path is empty too.
  unfoldable pub apply_wire_guard_config_to_disk : Env → Job → Bool → Host w → Host w × Bool
  unfolding out_path clear_pending write_wire_guard_server_config apply_kernel_after_writing_wg_conf
  apply_wire_guard_config_to_disk env job restart h = elim job.conf [
    | none ↦ (h, false)
    | some conf ↦
        let canonical = trim_space conf in
        let cleared = clear_pending env job.pending_remove_fails h restart canonical in
        if not job.records_read
        then (h, false)
        else if canonical == ""
        then (record h { files = cleared }, false)
        else (let (files, written) =
              write_wire_guard_server_config job.text cleared (out_path env h restart canonical) in
            let h₁ : Host w = record h { files = files } in
            if not written || not job.hashes_saved
            then (h₁, false)
            else apply_kernel_after_writing_wg_conf env job.faults job.tmp h₁ canonical restart)
  ]

  -- `ApplyServerConfig`; the body is unreadable, no JSON, or says whether to restart.
  pub data ApplyBody : Type 0 where
    unreadable no_json : ApplyBody
    restarts : Option Bool → ApplyBody

  unfoldable pub apply_server_config : Env → Job → ApplyBody → Host w → Host w × Reply
  unfolding apply_wire_guard_config_to_disk wg_tunnel_is_running
  apply_server_config env job body h = elim job.conf [
    | none ↦ (h, json 500 false (lit "Cannot read global settings"))
    | some conf ↦ elim body [
      | unreadable ↦ (h, json 400 false (lit "Cannot read request body"))
      | no_json ↦ (h, json 400 false (lit "Invalid JSON body"))
      | restarts wanted ↦
          let restart : Bool = elim wanted [ none ↦ wg_tunnel_is_running w h conf | some b ↦ b ] in
          let (h', done) = apply_wire_guard_config_to_disk env job restart h in
          if done
          then (h', json 200 true (lit "Applied server config successfully"))
          else (h', json 500 false failure)
    ]
  ]
