-- ===== src/Tunnel/Apply/Runs.antt =====
-- The application of the records: the text that the files hold and that the interface runs.
use wireguard_ui.Prelude.{
  String, Bool, true, false, ◌≡◌, ◌∙◌, none, some, ◌==◌, eq_iff, eq_refl, arith,
}
use wireguard_ui.Text.{trim_space}
use wireguard_ui.Session.Values.{json, lit}
use wireguard_ui.Tunnel.{
  Files, write, Faults, Programs, IsWg, Env, Host, is_abs, wg_conf_pending_path,
  remove_wg_conf_pending, run_wg_quick_up, wg_tunnel_is_running, unit_conf, wg_iface_for_conf_path,
  wg_sync_conf_from_saved_file,
}
use wireguard_ui.Tunnel.Promote.{next_conf, IsPlaced, pending_differs}
use wireguard_ui.Tunnel.Apply.{
  rendered, Job, is_pending, out_path, clear_pending, write_wire_guard_server_config,
  apply_kernel_after_writing_wg_conf, apply_wire_guard_config_to_disk, restarts,
  apply_server_config,
}
use wireguard_ui.Tunnel.Apply.Started.{
  IsRunning, config-run_wg_quick_up, next_conf-apply_kernel, config-apply_kernel,
}

module _ (w : Programs) (env : Env) (conf : String) where
  written : Bool → Host w → String → Files
  written restart h text =
      write (clear_pending w env false h restart conf) (out_path w env h restart conf) (some text)

  next_conf-written :
      (restart : Bool) (h : Host w) (text : String)
      → trim_space conf ≡ conf
      → (conf == "") ≡ false
      → next_conf (written restart h text) conf ≡ some text
  unfolding written out_path clear_pending remove_wg_conf_pending next_conf wg_conf_pending_path
  next_conf-written restart h text t n =
      let differ = pending_differs conf t in
      let pending = wg_conf_pending_path conf in
      ground (arith, t, eq_refl conf, eq_refl pending, eq_iff conf pending, eq_iff pending conf)

  in_place-written :
      (h : Host w) (text : String)
      → trim_space conf ≡ conf
      → (written true h text conf ≡ some text)
        × (written true h text (wg_conf_pending_path conf) ≡ none)
  unfolding written out_path clear_pending remove_wg_conf_pending is_pending
  in_place-written h text t =
      let differ = pending_differs conf t in
      let pending = wg_conf_pending_path conf in
      ground (arith, t, eq_refl conf, eq_refl pending, eq_iff conf pending, eq_iff pending conf)

-- A request of which the records can be read and rendered and the pending file, when it is to go,
-- removed, with the path of the settings given without spaces around it.
pub record IsReady (conf text : String) (job : Job) : Type 0 where
  pub placed : IsPlaced conf job.tmp
  pub set : job.conf ≡ some conf
  pub given : (conf == "") ≡ false
  pub read : job.records_read ≡ true
  pub renders : job.text ≡ rendered text
  pub removes : job.pending_remove_fails ≡ false

module _ (w : Programs) (env : Env) where
  next_conf-apply :
      (conf text : String) (job : Job) (restart : Bool) (h : Host w)
      → IsReady conf text job
      → next_conf (apply_wire_guard_config_to_disk w env job restart h).0.files conf ≡ some text
  unfolding apply_wire_guard_config_to_disk write_wire_guard_server_config written
  next_conf-apply conf text job restart h r =
      let t = r.placed.trimmed in
      let h₁ : Host w = record h { files = written w env conf restart h text } in
      ground (
        arith,
        r.set,
        t,
        r.given,
        r.read,
        r.renders,
        r.removes,
        next_conf-written w env conf restart h text t r.given,
        next_conf-apply_kernel w env job.faults job.tmp conf r.placed h₁ restart,
      )

  -- Let the records be read and rendered to `text`, the pending file removed where it is to go, and
  -- the path of the settings be given, with no space around it and another than the staging files'
  -- paths. Then an application, with or without a restart and whether it succeeds or not after the
  -- text is written, followed by a start of the tunnel that succeeds, leaves the interface with
  -- `text`.
  pub config-run_wg_quick_up-apply :
      IsWg w
      → (f : Faults) (tmp conf text : String) (job : Job) (restart : Bool) (h : Host w)
      → IsReady conf text job
      → IsPlaced conf tmp
      → let h₁ = (apply_wire_guard_config_to_disk w env job restart h).0 in
        (run_wg_quick_up w env f tmp h₁ conf).1 ≡ true
        → w.config (run_wg_quick_up w env f tmp h₁ conf).0.net ≡ some text
  config-run_wg_quick_up-apply laws f tmp conf text job restart h r at up =
      config-run_wg_quick_up w env f tmp conf at laws
        (apply_wire_guard_config_to_disk w env job restart h).0 up
      ∙ next_conf-apply conf text job restart h r

  -- Over programs with the stated laws and on Linux, let a unit of `systemd` that is to be
  -- restarted be the one that reads the settings' path, and let a request that asks for a restart
  -- have its records read and rendered to `text`, the pending file removed, and the path of the
  -- settings given, with no space around it and another than the staging file's path. If the answer
  -- is 200, the interface was last brought up with `text`, by the unit or by `wg-quick`, or what
  -- was last loaded on it, by the fallback to `wg syncconf`, is what `wg-quick strip` makes of
  -- `text`.
  pub config-apply_server_config :
      IsWg w
      → (conf text : String) (job : Job) (h : Host w) → env.linux ≡ true
      → (env.via_systemd ≡ true → unit_conf (wg_iface_for_conf_path conf) ≡ conf)
      → IsReady conf text job
      → (apply_server_config w env job (restarts (some true)) h).1
        ≡ json 200 true (lit "Applied server config successfully")
      → IsRunning w (some text) (apply_server_config w env job (restarts (some true)) h).0.net
  unfolding apply_server_config apply_wire_guard_config_to_disk write_wire_guard_server_config
      written
  config-apply_server_config laws conf text job h l unit r e =
      let t = r.placed.trimmed in
      let h₁ : Host w = record h { files = written w env conf true h text } in
      ground (
        arith,
        r.set,
        t,
        r.given,
        r.read,
        r.renders,
        r.removes,
        in_place-written w env conf h text t,
        config-apply_kernel w env job.faults job.tmp conf r.placed laws unit l h₁,
      )

  -- On Linux, with pending files enabled and the tunnel stopped, a request that names no restart,
  -- of which the records are read and rendered to `text`, the pending file removed where it is to
  -- go and the hashes saved, with an absolute path in the settings that has no space around it and
  -- is not the staging file's: whether `wg syncconf` is enabled or not, the answer is 200, the
  -- interface and the canonical file are as they were, and the pending file holds `text`.
  pub apply_server_config-stopped :
      (conf text : String) (job : Job) (h : Host w)
      → env.linux ≡ true
      → env.pending_when_stopped ≡ true
      → is_abs conf ≡ true
      → w.is_running h.net ≡ false
      → job.hashes_saved ≡ true
      → IsReady conf text job
      → let (h', reply) = apply_server_config w env job (restarts none) h in
        (reply ≡ json 200 true (lit "Applied server config successfully"))
        × (h'.net ≡ h.net)
        × (h'.files conf ≡ h.files conf)
        × (h'.files (wg_conf_pending_path conf) ≡ some text)
  unfolding apply_server_config apply_wire_guard_config_to_disk write_wire_guard_server_config
      out_path clear_pending is_pending wg_tunnel_is_running apply_kernel_after_writing_wg_conf
      wg_sync_conf_from_saved_file
  apply_server_config-stopped conf text job h l p a s k r =
      let t = r.placed.trimmed in
      let differ = pending_differs conf t in
      let pending = wg_conf_pending_path conf in
      ground (
        arith,
        r.set,
        t,
        r.given,
        r.read,
        r.renders,
        r.removes,
        eq_refl conf,
        eq_refl pending,
        eq_iff conf pending,
      )
