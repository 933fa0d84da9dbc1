-- ===== src/Server/Applied.antt =====
-- The application of the stored records: what the interface runs after it, and what is pending.
use wireguard_ui.Prelude.{String, Bool, true, false, ◌≡◌, ◌∙◌, subst, some, ◌==◌, arith}
use wireguard_ui.Store.{Driver, IsDriver}
use wireguard_ui.Server.{
  GlobalSetting, ServerRecord, ServerDigest, Server, get_global_settings, get_server,
  hashes_changed, update_hashes,
}
use wireguard_ui.Server.Apply.{Disk, job_of, reaches_hashes, apply_records}
use wireguard_ui.Server.Hashes.{
  get_global_settings-update_hashes, get_server-update_hashes, hashes_changed-update_hashes,
}
use wireguard_ui.Tunnel.{Programs, IsWg, Env, Host, unit_conf, wg_iface_for_conf_path}
use wireguard_ui.Tunnel.Promote.{IsPlaced}
use wireguard_ui.Tunnel.Apply.{
  rendered, Job, write_wire_guard_server_config, apply_wire_guard_config_to_disk, restarts,
  apply_server_config,
}
use wireguard_ui.Tunnel.Apply.Started.{IsRunning}
use wireguard_ui.Tunnel.Apply.Runs.{IsReady, config-apply_server_config}

-- The records of a directory can be read and rendered to a text, and the settings name a file.
pub record IsComplete (D : Driver ServerRecord) (disk : Disk D) (d : D.Dir) (server : Server D)
    (gs : GlobalSetting) (text : String) : Type 0 where
  pub stored_server : get_server D d ≡ some server
  pub stored_settings : get_global_settings D d ≡ some gs
  pub placed : IsPlaced gs.config_file_path disk.tmp
  pub given : (gs.config_file_path == "") ≡ false
  pub others : disk.others_read ≡ true
  pub renders : disk.render server gs ≡ rendered text
  pub removes : disk.pending_remove_fails ≡ false

module _ (D : Driver ServerRecord) (digest : ServerDigest) (w : Programs) (env : Env) where
  reached_of_done :
      (job : Job) (restart : Bool) (h : Host w)
      → (apply_wire_guard_config_to_disk w env job restart h).1 ≡ true
      → (job.hashes_saved ≡ true) × (reaches_hashes D digest job ≡ true)
  unfolding apply_wire_guard_config_to_disk reaches_hashes write_wire_guard_server_config
  reached_of_done job restart h done = (ground arith, ground arith)

module _ {D : Driver ServerRecord} (laws : IsDriver D) (digest : ServerDigest) (w : Programs)
    (wg : IsWg w) (env : Env) (linux : env.linux ≡ true) (disk : Disk D) (clients : String)
    (d : D.Dir) (h : Host w) (server : Server D) (gs : GlobalSetting) (text : String)
    (c : IsComplete D disk d server gs text)
    (unit : env.via_systemd ≡ true
      → unit_conf (wg_iface_for_conf_path gs.config_file_path) ≡ gs.config_file_path) where
  job_of-IsReady : IsReady gs.config_file_path text (job_of D digest disk clients d)
  unfolding job_of
  job_of-IsReady = record {
    placed = c.placed;
    set = ground (arith, c.stored_settings);
    given = c.given;
    read = ground (arith, c.stored_server, c.others);
    renders = ground (arith, c.stored_server, c.stored_settings, c.renders);
    removes = c.removes;
  }

  config-apply_to_disk :
      (apply_wire_guard_config_to_disk w env (job_of D digest disk clients d) true h).1 ≡ true
      → IsRunning w
          (some text)
          (apply_wire_guard_config_to_disk w env (job_of D digest disk clients d) true h).0.net
  unfolding apply_server_config
  config-apply_to_disk done =
      let job = job_of D digest disk clients d in
      let set = job_of-IsReady.set in
      let net : w.Net = (apply_server_config w env job (restarts (some true)) h).0.net in
      let same : net ≡ (apply_wire_guard_config_to_disk w env job true h).0.net =
        ground (arith, set) in
      subst (IsRunning w (some text)) same (
        config-apply_server_config w env wg gs.config_file_path text job h linux unit job_of-IsReady
          (ground (arith, set)))

  config_of_done :
      (apply_records D digest w env disk clients true d h).2 ≡ true
      → IsRunning w (some text) (apply_records D digest w env disk clients true d h).1.net
  unfolding apply_records
  config_of_done done = config-apply_to_disk done

  apply_records_hashes :
      (apply_records D digest w env disk clients true d h).2 ≡ true
      → ((update_hashes D digest clients d).1 ≡ true)
        × ((apply_records D digest w env disk clients true d h).0
            ≡ (update_hashes D digest clients d).0)
  unfolding apply_records job_of
  apply_records_hashes done =
      let (saved, reached) =
        reached_of_done D digest w env (job_of D digest disk clients d) true h done in
      (saved, rw reached)

  -- Over a driver and programs with the stated laws and on Linux, let the server's records, the
  -- settings and the other records be readable and rendered to `text`, the pending file removable,
  -- and the settings' path be given, with no space around it and another than the staging file's,
  -- and the one that a restarted unit of `systemd` reads. When an application with a restart
  -- succeeds, the interface was last brought up with the text of the stored records, or what was
  -- last loaded on it, by `wg syncconf`, is what `wg-quick strip` makes of that text, the records
  -- are as they were, and for the same hash of the clients no change is reported as pending.
  pub config-apply_records :
      (apply_records D digest w env disk clients true d h).2 ≡ true
      → let (d', h', done) = apply_records D digest w env disk clients true d h in
        IsRunning w (some text) h'.net
        × (get_server D d' ≡ some server)
        × (get_global_settings D d' ≡ some gs)
        × (hashes_changed D digest clients d' ≡ false)
  config-apply_records done =
      let (saved, e) = apply_records_hashes done in
      (
        config_of_done done,
        rw e (get_server-update_hashes laws digest clients d saved ∙ c.stored_server),
        rw e (get_global_settings-update_hashes laws digest clients d saved ∙ c.stored_settings),
        rw e (hashes_changed-update_hashes laws digest clients d saved),
      )
